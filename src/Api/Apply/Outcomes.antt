-- ===== src/Api/Apply/Outcomes.antt =====
-- What becomes of a changed configuration.
use mathlib.Core.Path.{subst}
use sis.Base.{
  ◌≡◌, ◌≢◌, ◌⊎◌, refl, sym, ap, ◌∙◌, inl, inr, Bool, true, false, not, ◌&&◌, Option, none, some,
  List, [], ◌∷◌, ◌++◌, Str, codes, eqs, arith, if◌then◌else◌, Bool-cases, Option-cases,
}
use sis.Base.Results.{err, Result-cases}
use sis.Config.Types.{Settings, policy_config}
use sis.Config.Checks.{Host, is_blank, is_nil}
use sis.Config.Compiles.{AllApart, is_nil-nil}
use sis.Config.Validate.{validate}
use sis.Config.Accepted.{with_repeat, validate-with_repeat, reload_config-repeat, new_engine-repeat}
use sis.Policy.Engine.{Engine, new_engine, reload_config}
use sis.Policy.Errors.{invalid_domain}
use sis.Api.Apply.{
  Outside, Admin, Answer, applied, bad_config, failed, ensure_log_salt, redacted_copy,
  append_history, reconfigure_log, replaced, put_to_work, reopen_logs, reload, apply_config,
}

module _ (host : Host) (o : Outside) where
  -- Either the configuration is taken up, or the running one stays.
  abbrev TakenUp : Settings → Admin → Admin × Answer → Type 0
  TakenUp c s r = (r.0.running ≡ replaced c s.running) × (r.1 ≡ applied) × (r.0.file ≡ s.file)

  abbrev Left : Admin → Admin × Answer → Type 0
  Left s r = (r.0.running ≡ s.running) × (r.1 ≢ applied) × (r.0.file ≡ s.file)

  reopen_logs-cases :
      (c : Settings) (s : Admin) → TakenUp c s (reopen_logs o c s) ⊎ Left s (reopen_logs o c s)
  unfolding reopen_logs put_to_work
  reopen_logs-cases c s = elim (Option-cases (reconfigure_log o c s.query_log)) [
    | inl e ↦ inr (ground (arith, e), ground (arith, e), ground (arith, e))
    | inr (q, e) ↦ elim (Bool-cases (s.has_audit && not o.audit_opens)) [
      | inl a ↦ inr (ground (arith, e, a), ground (arith, e, a), ground (arith, e, a))
      | inr a ↦ inl (ground (arith, e, a), ground (arith, e, a), ground (arith, e, a))
    ]
  ]

  reload-cases :
      (c : Settings) (s : Admin) → TakenUp c s (reload host o c s) ⊎ Left s (reload host o c s)
  unfolding reload
  reload-cases c s = elim (Option-cases s.engine) [
    | inl e ↦
        let is : reload host o c s ≡ reopen_logs o c s = ground (arith, e) in
        subst (λ r. TakenUp c s r ⊎ Left s r) (sym is) (reopen_logs-cases c s)
    | inr (engine, e) ↦
        let next = reload_config host.platform engine (some (policy_config c)) in
        elim (Result-cases next.1) [
          | inl (u, f) ↦
              let t : Admin = record s { engine = some next.0 } in
              let is : reload host o c s ≡ reopen_logs o c t = ground (arith, e, f) in
              subst (λ r. TakenUp c s r ⊎ Left s r) (sym is) (reopen_logs-cases c t)
          | inr (m, f) ↦
              let is : reload host o c s ≡ (s, bad_config) = ground (arith, e, f) in
              subst (λ r. TakenUp c s r ⊎ Left s r) (sym is) (inr (refl, ground arith, refl))
        ]
  ]

  taken :
      (old : Option Settings) (c : Settings)
      → replaced c old ≡ (elim old [ none ↦ none | some x ↦ some c ])
  taken none c = refl
  taken (some x) c = refl

  -- The configuration that is looked at: it has a salt where it needs one, and no issue.
  abbrev pub Checked : Settings → Settings → Type 0
  Checked c next = (ensure_log_salt o.salt c ≡ some next) × (validate host next ≡ [])

  abbrev written : Settings → Admin → Admin
  written c s = record s { file = if is_blank s.config_path then s.file else some c }

  saved-reload :
      (c next : Settings) (s : Admin) (h : Option (List Settings))
      → Checked c next
      → (not (is_blank s.config_path) && not o.saves) ≡ false
      → append_history o.appends next s.history ≡ some h
      → apply_config host o c s ≡ reload host o next (record (written next s) { history = h })
  unfolding apply_config
  saved-reload c next s h (e, v) w g =
      let fine : is_nil (validate host next) ≡ true = ap is_nil v in ground (arith, e, fine, w, g)

  -- The server with the configuration written to the file and its history.
  saved-steps :
      (c next : Settings) (s : Admin)
      → Checked c next
      → (not (is_blank s.config_path) && not o.saves) ≡ false
      → (apply_config host o c s ≡ (written next s, failed))
        ⊎ ((h : Option (List Settings)) × (append_history o.appends next s.history ≡ some h)
            × (apply_config host o c s
                ≡ reload host o next (record (written next s) { history = h })))
  unfolding apply_config
  saved-steps c next s (e, v) w =
      let fine : is_nil (validate host next) ≡ true = ap is_nil v in
      elim (Option-cases (append_history o.appends next s.history)) [
        | inl h ↦ inl (ground (arith, e, fine, w, h))
        | inr (h, g) ↦ inr (h, g, saved-reload c next s h (e, v) w g)
      ]

  -- A change is taken up, and then the running configuration, where the server has one, is the one that
  -- was checked, which has no issue and stands in the file where there is one; or it is answered with an error and the running
  -- configuration stays.
  pub apply_config-cases :
      (c : Settings) (s : Admin)
      → let r = apply_config host o c s in
        ((next : Settings) × Checked c next
          × (r.0.running ≡ (elim s.running [ none ↦ none | some old ↦ some next ]))
          × (r.1 ≡ applied)
          × (r.0.file ≡ (if is_blank s.config_path then s.file else some next)))
        ⊎ ((r.0.running ≡ s.running) × (r.1 ≢ applied))
  apply_config-cases c s = elim (Option-cases (ensure_log_salt o.salt c)) [
    | inl e ↦
        let is : apply_config host o c s ≡ (s, failed) = unfold apply_config in ground (arith, e) in
        inr (ap (λ r. r.0.running) is, ground (arith, ap (λ r. r.1) is))
    | inr (next, e) ↦ elim (Bool-cases (is_nil (validate host next))) [
      | inr v ↦
          let is : apply_config host o c s ≡ (s, bad_config) =
            unfold apply_config in ground (arith, e, v) in
          inr (ap (λ r. r.0.running) is, ground (arith, ap (λ r. r.1) is))
      | inl v ↦ elim (Bool-cases (not (is_blank s.config_path) && not o.saves)) [
        | inl w ↦
            let is : apply_config host o c s ≡ (s, failed) =
              unfold apply_config in ground (arith, e, v, w) in
            inr (ap (λ r. r.0.running) is, ground (arith, ap (λ r. r.1) is))
        | inr w ↦
            let checked : Checked c next = (e, is_nil-nil (validate host next) v) in
            elim (saved-steps c next s checked w) [
              | inl is ↦ inr (ap (λ r. r.0.running) is, ground (arith, ap (λ r. r.1) is))
              | inr (h, g, is) ↦
                  let t : Admin = record (written next s) { history = h } in
                  elim (reload-cases next t) [
                    | inl (run, took, file) ↦ inl (
                      next,
                      checked,
                      ap (λ r. r.0.running) is ∙ run ∙ taken s.running next,
                      ap (λ r. r.1) is ∙ took,
                      ap (λ r. r.0.file) is ∙ file,
                    )
                    | inr (run, other, file) ↦
                        inr
                          (ap (λ r. r.0.running) is ∙ run, ground (arith, ap (λ r. r.1) is, other))
                  ]
            ]
      ]
    ]
  ]

  -- A configuration that is good but for a domain that its allowlist repeats is answered with an error
  -- only behind the write: the file and the history have it then, the running configuration is another,
  -- and no engine can be made from what stands in the file.
  pub apply_config-with_repeat :
      (c : Settings) (s : Admin) (e : Engine) (h : List Settings) (d : Str) (ds : List Str)
      (clients : Option (Str → Str))
      → validate host c ≡ []
      → AllApart host c.groups
      → c.allow_domains ≡ d ∷ ds
      → eqs c.privacy.log_mode (codes "hashed") ≡ false
      → is_blank s.config_path ≡ false
      → (o.saves ≡ true) × (o.appends ≡ true)
      → s.engine ≡ some e
      → s.history ≡ some h
      → let next = with_repeat host c d ds in
        (apply_config host o next s ≡ (
          record s { file = some next; history = some (h ++ redacted_copy next ∷ []) },
          bad_config,
        ))
        × (new_engine host.platform (some (policy_config next)) clients
            ≡ err (invalid_domain (codes "allowlist.domains") d))
  apply_config-with_repeat c s e h d ds clients v b a m p (saves, appends) en hi =
      let next = with_repeat host c d ds in
      let checked : Checked next next =
        (unfold ensure_log_salt in ground (arith, m), validate-with_repeat host c d ds v a) in
      let w : (not (is_blank s.config_path) && not o.saves) ≡ false = ground (arith, saves) in
      let kept = some (h ++ redacted_copy next ∷ []) in
      let told : append_history o.appends next s.history ≡ some kept =
        unfold append_history in ground (arith, appends, hi) in
      let after : Admin = record (written next s) { history = kept } in
      let rejected : reload host o next after ≡ (after, bad_config) =
        unfold reload in ground (arith, en, reload_config-repeat host c d ds v a e b) in
      let path : after ≡ record s { file = some next; history = kept } =
        ap
          (λ (x : Bool).
            let t : Admin = record s { file = if x then s.file else some next; history = kept } in
            t)
          p in
      (
        saved-reload next next s kept checked w told
            ∙ rejected
            ∙ ap (λ (t : Admin). let r : Admin × Answer = (t, bad_config) in r) path,
        (new_engine-repeat host c d ds v a clients b).1,
      )
