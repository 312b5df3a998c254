-- ===== src/Store/File/Opening.antt =====
-- What Open makes of a file: every migration is recorded, and nothing else is touched.
use mathlib.Core.Path.{subst}
use sis.Base.{
  ℕ, suc, ◌≤◌, ◌≡◌, ◌⊎◌, refl, sym, ap, ◌∙◌, inl, inr, true, false, Option, none, some, List, [],
  ◌∷◌, Str, arith, str_eq, if◌then◌else◌, eqs, Bool-cases, Option-cases, leb, All,
}
use sis.Base.Results.{ok, Result-cases}
use sis.Store.Models.{StoreError, Codec}
use sis.Store.File.{
  FileStore, Save, get_json, put_json, schema_key, apply_migrations, migrate_from, run_migrations,
  open_store, versions,
}
use sis.Store.File.Laws.{Faithful, put_json-rows, get_json-put_json, get_json-put_json_other}

-- The versions, up to the last one.
abbrev Last : ℕ → List ℕ → Type 0
Last n [] = suc n ≡ 0
Last n (v ∷ []) = v ≡ n
Last n (v ∷ w ∷ vs) = Last n (w ∷ vs)

module _ (codec : Codec ℕ) (saves : ℕ → Save) where
  -- The store is open, its version is at least this, and the other keys are as in another store.
  record Moved {A : Type 0} (other : Codec A) (rows s : FileStore) : Type 0 where
    opened : s.is_closed ≡ false
    kept : (k : Str) → eqs schema_key k ≡ false → get_json other k s ≡ get_json other k rows

  module _ (current v : ℕ) (vs : List ℕ) (s : FileStore) where
    abbrev one : FileStore × Option StoreError
    one = put_json codec (saves v) schema_key v s

    passed :
        leb v current ≡ true
        → apply_migrations codec saves current (v ∷ vs) s
          ≡ apply_migrations codec saves current vs s
    unfolding apply_migrations
    passed e = rw e refl

    applied :
        leb v current ≡ false
        → one.1 ≡ none
        → apply_migrations codec saves current (v ∷ vs) s
          ≡ apply_migrations codec saves current vs one.0
    unfolding apply_migrations
    applied e g = rw (e, g) refl

    stopped :
        (failed : StoreError)
        → leb v current ≡ false
        → one.1 ≡ some failed
        → apply_migrations codec saves current (v ∷ vs) s ≡ (one.0, some failed)
    unfolding apply_migrations
    stopped failed e g = rw (e, g) refl

  module _ (current : ℕ) {A : Type 0} (other : Codec A) (start : FileStore) where
    put-Moved :
        (v : ℕ) (s : FileStore)
        → Faithful codec v
        → Moved other start s
        → Moved other start (put_json codec (saves v) schema_key v s).0
    put-Moved v s (raw, e, d) m = record {
      opened = (put_json-rows codec (saves v) schema_key v s raw m.opened e).1;
      kept = λ k n. get_json-put_json_other codec other (saves v) schema_key k v s n ∙ m.kept k n;
    }

    apply-Moved :
        (vs : List ℕ) (s : FileStore)
        → All (Faithful codec) vs
        → Moved other start s
        → Moved other start (apply_migrations codec saves current vs s).0
    apply-Moved [] s f m = unfold apply_migrations in m
    apply-Moved (v ∷ vs) s (f, fs) m = elim (Bool-cases (leb v current)) [
      | inl e ↦
          subst (λ r. Moved other start r.0) (sym (passed current v vs s e)) (apply-Moved vs s fs m)
      | inr e ↦ elim (Option-cases (put_json codec (saves v) schema_key v s).1) [
        | inl g ↦
            subst (λ r. Moved other start r.0) (sym (applied current v vs s e g))
              (apply-Moved vs (put_json codec (saves v) schema_key v s).0 fs (put-Moved v s f m))
        | inr (failed, g) ↦
            subst (λ r. Moved other start r.0) (sym (stopped current v vs s failed e g))
              (put-Moved v s f m)
      ]
    ]

  apply-version :
      (current n : ℕ) (vs : List ℕ) (s : FileStore)
      → leb n current ≡ false
      → All (Faithful codec) vs
      → Last n vs
      → s.is_closed ≡ false
      → (apply_migrations codec saves current vs s).1 ≡ none
      → get_json codec schema_key (apply_migrations codec saves current vs s).0 ≡ ok n
  apply-version current n [] s c f l o h = ground arith
  apply-version current n (v ∷ []) s c (f, fs) l o h =
      let written = get_json-put_json codec (saves v) schema_key v s o f in
      let late : leb v current ≡ false = ground arith in
      elim (Option-cases (one current v [] s).1) [
        | inl g ↦
            let is = applied current v [] s late g in
            let same : apply_migrations codec saves current [] (one current v [] s).0
                ≡ ((one current v [] s).0, none) =
              unfold apply_migrations in refl in
            ap (λ r. get_json codec schema_key r.0) (is ∙ same) ∙ written ∙ ap ok l
        | inr (failed, g) ↦ ground (arith, stopped current v [] s failed late g, h)
      ]
  apply-version current n (v ∷ w ∷ vs) s c (f, fs) l o h = elim (Bool-cases (leb v current)) [
    | inl e ↦
        let is = passed current v (w ∷ vs) s e in
        ap (λ r. get_json codec schema_key r.0) is
        ∙ apply-version current n (w ∷ vs) s c fs l o (ap (λ r. r.1) (sym is) ∙ h)
    | inr e ↦ elim (Option-cases (one current v (w ∷ vs) s).1) [
      | inr (failed, g) ↦ ground (arith, stopped current v (w ∷ vs) s failed e g, h)
      | inl g ↦
          let is = applied current v (w ∷ vs) s e g in
          let (raw, en, de) = f in
          ap (λ r. get_json codec schema_key r.0) is
          ∙ apply-version current n (w ∷ vs) (one current v (w ∷ vs) s).0 c fs l
              (put_json-rows codec (saves v) schema_key v s raw o en).1 (ap (λ r. r.1) (sym is) ∙ h)
    ]
  ]

  from-late :
      (current : ℕ) (s : FileStore)
      → leb 7 current ≡ true
      → migrate_from codec saves current s ≡ (s, none)
  unfolding migrate_from
  from-late current s h =
      ap (λ b. if b then (s, none) else apply_migrations codec saves current versions s) h

  from-early :
      (current : ℕ) (s : FileStore)
      → leb 7 current ≡ false
      → migrate_from codec saves current s ≡ apply_migrations codec saves current versions s
  unfolding migrate_from
  from-early current s h =
      ap (λ b. if b then (s, none) else apply_migrations codec saves current versions s) h

  run-cases :
      (s : FileStore)
      → ((v : ℕ) × (get_json codec schema_key s ≡ ok v)
          × (7 ≤ v)
          × (run_migrations codec saves s ≡ (s, none)))
        ⊎ ((current : ℕ) × (leb 7 current ≡ false)
            × (run_migrations codec saves s ≡ apply_migrations codec saves current versions s))
  unfolding run_migrations
  run-cases s = elim (Result-cases (get_json codec schema_key s)) [
    | inr (e, g) ↦
        let is : run_migrations codec saves s ≡ migrate_from codec saves 0 s = rw g refl in
        inr (0, refl, is ∙ from-early 0 s refl)
    | inl (v, g) ↦
        let is : run_migrations codec saves s ≡ migrate_from codec saves v s = rw g refl in
        elim (Bool-cases (leb 7 v)) [
          | inl h ↦ inl (v, g, ground (arith, h), is ∙ from-late v s h)
          | inr h ↦ inr (v, h, is ∙ from-early v s h)
        ]
  ]

  open-run :
      (rows : List (Str × Str)) (s : FileStore)
      → open_store codec saves (ok rows) ≡ ok s
      → run_migrations codec saves (record { rows = rows; is_closed = false; disk = rows })
        ≡ (s, none)
  unfolding open_store
  open-run rows s h =
      let r = run_migrations codec saves (record { rows = rows; is_closed = false; disk = rows }) in
      elim (Option-cases r.1) [
        | inl e ↦ ground (arith, e, h)
        | inr (failed, e) ↦ ground (arith, e, h)
      ]

  -- A store that opens is at the last version or was beyond it, is open, and under every other key
  -- reads what the file held.
  pub open_store-version :
      {A : Type 0} (other : Codec A) (rows : List (Str × Str)) (s : FileStore)
      → All (Faithful codec) versions
      → open_store codec saves (ok rows) ≡ ok s
      → ((v : ℕ) × (get_json codec schema_key s ≡ ok v) × (7 ≤ v))
        × (s.is_closed ≡ false)
        × ((k : Str)
            → eqs schema_key k ≡ false
            → get_json other k s
              ≡ get_json other k (record { rows = rows; is_closed = false; disk = rows }))
  open_store-version other rows s f h =
      let start : FileStore = record { rows = rows; is_closed = false; disk = rows } in
      let m : Moved other start start = record { opened = refl; kept = λ k n. refl } in
      let run = open-run rows s h in
      elim (run-cases start) [
        | inl (v, g, l, e) ↦
            let same = ap (λ r. r.0) (sym e ∙ run) in
            (
              (v, ap (get_json codec schema_key) (sym same) ∙ g, l),
              ap (λ t. t.is_closed) (sym same),
              λ k n. ap (get_json other k) (sym same),
            )
        | inr (current, c, e) ↦
            let is = sym e ∙ run in
            let same = ap (λ r. r.0) is in
            let moved =
              subst (Moved other start) same (apply-Moved current other start versions start f m) in
            (
              (
                7,
                ap (get_json codec schema_key) (sym same)
                    ∙ apply-version current 7 versions start c f refl refl (ap (λ r. r.1) is),
                omega arith,
              ),
              moved.opened,
              moved.kept,
            )
      ]
