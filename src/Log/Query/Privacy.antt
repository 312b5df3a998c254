-- ===== src/Log/Query/Privacy.antt =====
-- What the query log lets out of its clients.
use sis.Base.{
  ℕ, ◌≡◌, refl, sym, ap, ◌∙◌, Bool, true, false, arith, Str, codes, eqs, if◌then◌else◌, ◌==◌,
}
use sis.Log.Entry.{Entry}
use sis.Log.Query.{Query, hash_value, apply_privacy, prepared, write}

-- The entry with another client's names and addresses.
abbrev pub with_client : Entry → Str → Str → Str → Str → Entry
with_client e key name group ip = record e {
  client_key = key;
  client_name = name;
  client_group = group;
  client_ip = ip;
}

module _ (hash : Str → Str → Str) (now : ℕ) (q : Query) where
  prepared-write :
      (e d : Entry)
      → prepared hash now q e ≡ prepared hash now q d
      → write hash now q e ≡ write hash now q d
  unfolding write
  prepared-write e d h = ground (arith, h)

  stamp : Bool → Entry → Entry
  stamp b e = if b then record e { ts = now } else e

  prepared-mode :
      (mode : Str) (e : Entry)
      → q.mode ≡ mode
      → prepared hash now q e ≡ apply_privacy hash mode q.salt (stamp (e.ts == 0) e)
  unfolding prepared stamp
  prepared-mode mode e m = ap (λ x. apply_privacy hash x q.salt (stamp (e.ts == 0) e)) m

  apply-anonymous :
      (b : Bool) (e : Entry) (key name group ip : Str)
      → apply_privacy hash (codes "anonymous") q.salt (stamp b (with_client e key name group ip))
        ≡ apply_privacy hash (codes "anonymous") q.salt (stamp b e)
  unfolding stamp apply_privacy eqs
  apply-anonymous true e key name group ip = refl
  apply-anonymous false e key name group ip = refl

  apply-hashed :
      (b : Bool) (e : Entry) (key ip : Str)
      → hash_value hash q.salt key ≡ hash_value hash q.salt e.client_key
      → hash_value hash q.salt ip ≡ hash_value hash q.salt e.client_ip
      → apply_privacy hash
          (codes "hashed")
          q.salt
          (stamp b (with_client e key e.client_name e.client_group ip))
        ≡ apply_privacy hash (codes "hashed") q.salt (stamp b e)
  unfolding stamp apply_privacy eqs
  apply-hashed true e key ip h k = rw (h, k) refl
  apply-hashed false e key ip h k = rw (h, k) refl

  -- In the mode "anonymous" nothing that is published or encoded depends on the client: another
  -- client's query leaves the log in the same state.
  pub write-anonymous :
      (e : Entry) (key name group ip : Str)
      → q.mode ≡ codes "anonymous"
      → write hash now q (with_client e key name group ip) ≡ write hash now q e
  write-anonymous e key name group ip m =
      let d = with_client e key name group ip in
      prepared-write d e (
        prepared-mode (codes "anonymous") d m
        ∙ apply-anonymous (e.ts == 0) e key name group ip
        ∙ sym (prepared-mode (codes "anonymous") e m))

  -- In the mode "hashed" the log depends on the client's key and address by their hashes alone.
  pub write-hashed :
      (e : Entry) (key ip : Str)
      → q.mode ≡ codes "hashed"
      → hash_value hash q.salt key ≡ hash_value hash q.salt e.client_key
      → hash_value hash q.salt ip ≡ hash_value hash q.salt e.client_ip
      → write hash now q (with_client e key e.client_name e.client_group ip) ≡ write hash now q e
  write-hashed e key ip m h k =
      let d = with_client e key e.client_name e.client_group ip in
      prepared-write d e (
        prepared-mode (codes "hashed") d m
        ∙ apply-hashed (e.ts == 0) e key ip h k
        ∙ sym (prepared-mode (codes "hashed") e m))
