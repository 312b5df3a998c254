-- ===== src/Store/File/Laws.antt =====
-- What the file-backed store keeps, in memory and on disk.
use mathlib.Core.Path.{subst}
use sis.Base.{
  ◌≡◌, refl, sym, ap, ◌∙◌, inl, inr, true, false, none, some, Str, arith, str_eq, if◌then◌else◌,
  eqs, eqs_iff, Bool-cases, Option-cases,
}
use sis.Base.Map.{lookup, insert, delete, lookup-insert, lookup-delete, is_some}
use sis.Base.Results.{ok, err}
use sis.Store.Models.{not_found, closed, Codec}
use sis.Store.File.{
  FileStore, Save, saved, not_saved, not_synced, save_locked, get_json, put_json, delete_key, close,
}

pub save_locked-rows :
    (io : Save) (s : FileStore)
    → ((save_locked io s).0.rows ≡ s.rows) × ((save_locked io s).0.is_closed ≡ s.is_closed)
unfolding save_locked
save_locked-rows saved s = (refl, refl)
save_locked-rows not_saved s = (refl, refl)
save_locked-rows not_synced s = (refl, refl)

-- A call that reports no error leaves the memory and the file the same.
save_locked-disk :
    (io : Save) (s : FileStore)
    → (save_locked io s).1 ≡ none
    → (save_locked io s).0.disk ≡ (save_locked io s).0.rows
unfolding save_locked
save_locked-disk saved s h = refl
save_locked-disk not_saved s h = cc
save_locked-disk not_synced s h = cc

module _ {A : Type 0} (codec : Codec A) where
  -- The value is read back as it was written, where its JSON is decoded to it.
  abbrev pub Faithful : A → Type 0
  Faithful value = (raw : Str) × (codec.encode value ≡ some raw) × (codec.decode raw ≡ some value)

  pub put_json-rows :
      (io : Save) (key : Str) (value : A) (s : FileStore) (raw : Str)
      → s.is_closed ≡ false
      → codec.encode value ≡ some raw
      → ((put_json codec io key value s).0.rows ≡ insert key raw s.rows)
        × ((put_json codec io key value s).0.is_closed ≡ false)
  unfolding put_json
  put_json-rows io key value s raw o e =
      let (r, c) = save_locked-rows io (record s { rows = insert key raw s.rows }) in
      (ground (arith, e, o, r), ground (arith, e, o, c))

  -- The new value is read back even if the file was not written.
  pub get_json-put_json :
      (io : Save) (key : Str) (value : A) (s : FileStore)
      → s.is_closed ≡ false
      → Faithful value
      → get_json codec key (put_json codec io key value s).0 ≡ ok value
  unfolding get_json
  get_json-put_json io key value s o (raw, e, d) =
      let (r, c) = put_json-rows io key value s raw o e in
      ground (arith, d, ap (lookup key) r ∙ lookup-insert key key raw s.rows, eqs_iff key key)

  -- Where no error is reported, the file holds what the memory holds.
  pub put_json-disk :
      (io : Save) (key : Str) (value : A) (s : FileStore)
      → (put_json codec io key value s).1 ≡ none
      → (put_json codec io key value s).0.disk ≡ (put_json codec io key value s).0.rows
  unfolding put_json
  put_json-disk io key value s h = elim (Option-cases (codec.encode value)) [
    | inl e ↦ ground (arith, e, h)
    | inr (raw, e) ↦ elim (Bool-cases s.is_closed) [
      | inl c ↦ ground (arith, e, c, h)
      | inr c ↦
          ground (arith, e, c, h, save_locked-disk io (record s { rows = insert key raw s.rows }))
    ]
  ]

module _ {A B : Type 0} (codec : Codec A) (other : Codec B) where
  -- What is read under every other key is what was there, whatever becomes of the write.
  pub get_json-put_json_other :
      (io : Save) (key k : Str) (value : A) (s : FileStore)
      → eqs key k ≡ false
      → get_json other k (put_json codec io key value s).0 ≡ get_json other k s
  unfolding get_json put_json
  get_json-put_json_other io key k value s n = elim (Option-cases (codec.encode value)) [
    | inl e ↦ ground (arith, e)
    | inr (raw, e) ↦
        let (r, c) = save_locked-rows io (record s { rows = insert key raw s.rows }) in
        let there = ap (lookup k) r ∙ lookup-insert key k raw s.rows in ground (arith, e, n, there)
  ]

module _ {B : Type 0} (other : Codec B) where
  -- A key that is deleted is gone, even if the file was not written, and no other key is.
  pub get_json-delete_key :
      (io : Save) (key k : Str) (s : FileStore)
      → s.is_closed ≡ false
      → get_json other k (delete_key io key s).0
        ≡ (if eqs key k then err not_found else get_json other k s)
  unfolding get_json delete_key
  get_json-delete_key io key k s o =
      let (r, c) = save_locked-rows io (record s { rows = delete key s.rows }) in
      let there = ap (lookup k) r ∙ lookup-delete key k s.rows in
      elim (Option-cases (lookup key s.rows)) [
        | inr (raw, f) ↦ ground (arith, o, f, there)
        | inl f ↦ elim (Bool-cases (eqs key k)) [
          | inl e ↦
              ground (arith, o, f, e, ap (λ x. lookup x s.rows) (sym ((eqs_iff key k).0 e)) ∙ f)
          | inr e ↦ ground (arith, o, f, e)
        ]
      ]

pub delete_key-disk :
    (io : Save) (key : Str) (s : FileStore)
    → (delete_key io key s).1 ≡ none
    → (delete_key io key s).0.disk ≡ (delete_key io key s).0.rows
unfolding delete_key
delete_key-disk io key s h =
    ground (arith, h, save_locked-disk io (record s { rows = delete key s.rows }))

shut : FileStore → FileStore
shut s = record { rows = s.rows; is_closed = true; disk = s.rows }

close-shut :
    (io : Save) (s : FileStore)
    → s.is_closed ≡ false
    → (close io s).1 ≡ none
    → (close io s).0 ≡ shut s
unfolding close save_locked shut
close-shut saved s o h = ground (arith, o)
close-shut not_saved s o h = ground (arith, o, h)
close-shut not_synced s o h = ground (arith, o, h)

-- Behind a Close without an error the file holds what the memory holds; no write, deletion or other
-- Close changes either any more.
pub close-final :
    {A : Type 0} (codec : Codec A) (io again : Save) (s : FileStore) (key : Str) (value : A)
    → s.is_closed ≡ false
    → (close io s).1 ≡ none
    → let t = (close io s).0 in
      (t.disk ≡ s.rows)
      × (t.rows ≡ s.rows)
      × ((put_json codec again key value t).0 ≡ t)
      × (delete_key again key t ≡ (t, some closed))
      × (close again t ≡ (t, none))
unfolding close put_json delete_key shut
close-final codec io again s key value o h =
    subst
      (λ t.
        (t.disk ≡ s.rows)
        × (t.rows ≡ s.rows)
        × ((put_json codec again key value t).0 ≡ t)
        × (delete_key again key t ≡ (t, some closed))
        × (close again t ≡ (t, none)))
      (sym (close-shut io s o h)) (refl, refl, unwritten, refl, refl)
  where
    unwritten : (put_json codec again key value (shut s)).0 ≡ shut s
    unwritten = elim (Option-cases (codec.encode value)) [
      | inl e ↦ ground (arith, e)
      | inr (raw, e) ↦ ground (arith, e)
    ]

pub delete_key-open :
    (io : Save) (key : Str) (s : FileStore)
    → s.is_closed ≡ false
    → (delete_key io key s).0.is_closed ≡ false
unfolding delete_key
delete_key-open io key s o =
    let (r, c) = save_locked-rows io (record s { rows = delete key s.rows }) in
    elim (Bool-cases (is_some (lookup key s.rows))) [
      | inl f ↦ ground (arith, o, f, c)
      | inr f ↦ ground (arith, o, f)
    ]
