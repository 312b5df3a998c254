-- ===== src/Log/Fanout/Channels.antt =====
-- What a subscriber who falls behind still finds in its channel.
use mathlib.Core.Path.{subst}
use mathlib.Core.List.{append_assoc, append-nil}
use sis.Base.{
  ℕ, suc, ◌≤◌, ◌≡◌, refl, sym, ap, ◌∙◌, inl, inr, Bool, true, false, none, some, List, [], ◌∷◌,
  ◌++◌, arith, if◌then◌else◌, ltb, ◌==◌, ==_iff, length, length-append, drop_first,
  length-drop_first, last_n, last_n-append, length-last_n, Bool-cases,
}
use sis.Base.Int.{pos}
use sis.Base.Map.{lookup, lookup-insert, lookup-delete}
use sis.Log.Fanout.{
  number_eq, Channel, Fanout, new_fanout, drop_oldest_send, send_all, snapshot, send_to_subs,
  ring_put, publish, publish_all, register, send_backlog, subscribe, unsubscribe,
}
use sis.Log.Fanout.Ring.{last_n-short, last_n-full, snapshot-publish_all}

module _ {A : Type 0} where
  -- The channel holds the last of what was sent, and at most as much as it may.
  abbrev Holds : ℕ → List A → Channel A → Type 0
  Holds n sent ch = (ch.size ≡ suc n) × (ch.buffer ≡ last_n (suc n) sent)

  send-last_n :
      (n : ℕ) (b : List A) (e : A)
      → length b ≤ suc n
      → (if ltb (length b) (suc n) then b ++ e ∷ [] else drop_first 1 b ++ e ∷ [])
        ≡ last_n (suc n) (b ++ e ∷ [])
  send-last_n n [] e h =
      let fits : ltb 0 (suc n) ≡ true = ground arith in
      rw fits (sym (last_n-short (suc n) (e ∷ []) (omega arith)))
  send-last_n n (x ∷ b) e h = elim (Bool-cases (ltb (length (x ∷ b)) (suc n))) [
    | inl g ↦
        let short : length ((x ∷ b) ++ e ∷ []) ≤ suc n =
          ground (arith, length-append (x ∷ b) (e ∷ [])) in
        rw g (sym (last_n-short (suc n) ((x ∷ b) ++ e ∷ []) short))
    | inr g ↦ rw g (sym (last_n-full (suc n) x e b (ground arith)))
  ]

  drop_oldest_send-fields :
      (ch : Channel A) (e : A) (n : ℕ)
      → ch.size ≡ suc n
      → length ch.buffer ≤ suc n
      → ((drop_oldest_send ch e).size ≡ suc n)
        × ((drop_oldest_send ch e).buffer ≡ (
            if ltb (length ch.buffer) (suc n)
            then ch.buffer ++ e ∷ []
            else drop_first 1 ch.buffer ++ e ∷ []))
  unfolding drop_oldest_send
  drop_oldest_send-fields ch e n s h =
      let received = length-drop_first 1 ch.buffer in
      elim (Bool-cases (ltb (length ch.buffer) (suc n))) [
        | inl g ↦ (ground (arith, s, g), ground (arith, s, g))
        | inr g ↦ (ground (arith, s, g, received), ground (arith, s, g, received))
      ]

  drop_oldest_send-Holds :
      (n : ℕ) (sent : List A) (ch : Channel A) (e : A)
      → Holds n sent ch
      → Holds n (sent ++ e ∷ []) (drop_oldest_send ch e)
  drop_oldest_send-Holds n sent ch e (s, h) =
      let within = length-last_n (suc n) sent in
      let (t, is) = drop_oldest_send-fields ch e n s (omega (arith, ap length h, within)) in
      (
        t,
        is
            ∙ ap (λ b. if ltb (length b) (suc n) then b ++ e ∷ [] else drop_first 1 b ++ e ∷ []) h
            ∙ send-last_n n (last_n (suc n) sent) e within
            ∙ last_n-append (suc n) sent (e ∷ []),
      )

  send_all-Holds :
      (n : ℕ) (es sent : List A) (ch : Channel A)
      → Holds n sent ch
      → Holds n (sent ++ es) (send_all ch es)
  unfolding send_all
  send_all-Holds n [] sent ch h = subst (λ s. Holds n s ch) (sym (append-nil sent)) h
  send_all-Holds n (e ∷ es) sent ch h =
      subst (λ s. Holds n s (send_all (drop_oldest_send ch e) es)) (append_assoc sent (e ∷ []) es)
        (send_all-Holds n es (sent ++ e ∷ []) (drop_oldest_send ch e)
          (drop_oldest_send-Holds n sent ch e h))

  lookup-send_to_subs :
      (e : A) (id : ℕ) (subs : List (ℕ × Channel A))
      → lookup id (send_to_subs e subs)
        ≡ elim (lookup id subs) [ none ↦ none | some ch ↦ some (drop_oldest_send ch e) ]
  unfolding lookup send_to_subs
  lookup-send_to_subs e id [] = refl
  lookup-send_to_subs e id ((j, ch) ∷ subs) = ground (arith, lookup-send_to_subs e id subs)

  -- The channel of a subscriber holds these entries.
  abbrev pub Receives : ℕ → ℕ → List A → Fanout A → Type 0
  Receives id n sent f = (ch : Channel A) × (lookup id f.subs ≡ some ch) × Holds n sent ch

  ring_put-subs : (f : Fanout A) (e : A) → (ring_put f e).subs ≡ f.subs
  unfolding ring_put
  ring_put-subs f e = ground arith

  publish-Receives :
      (id n : ℕ) (sent : List A) (f : Fanout A) (e : A)
      → Receives id n sent f
      → Receives id n (sent ++ e ∷ []) (publish f e)
  unfolding publish
  publish-Receives id n sent f e (ch, l, h) =
      let found = lookup-send_to_subs e id (ring_put f e).subs in
      let there = ap (λ s. lookup id s) (ring_put-subs f e) ∙ l in
      (drop_oldest_send ch e, ground (arith, found, there), drop_oldest_send-Holds n sent ch e h)

  publish_all-Receives :
      (id n : ℕ) (es sent : List A) (f : Fanout A)
      → Receives id n sent f
      → Receives id n (sent ++ es) (publish_all f es)
  unfolding publish_all
  publish_all-Receives id n [] sent f h = subst (λ s. Receives id n s f) (sym (append-nil sent)) h
  publish_all-Receives id n (e ∷ es) sent f h =
      subst (λ s. Receives id n s (publish_all (publish f e) es)) (append_assoc sent (e ∷ []) es)
        (publish_all-Receives id n es (sent ++ e ∷ []) (publish f e)
          (publish-Receives id n sent f e h))

  register-Receives :
      (f : Fanout A) (id n : ℕ) (replay : Bool)
      → Receives id n [] (register f id (pos (suc n)) replay).0
  unfolding register
  register-Receives f id n replay =
      let ch : Channel A = record { size = suc n; buffer = [] } in
      (
        ch,
        ground (arith, lookup-insert id id ch f.subs, ==_iff id id),
        (refl, sym (last_n-short (suc n) [] (omega arith))),
      )

  send_backlog-Receives :
      (id n : ℕ) (es sent : List A) (f : Fanout A)
      → Receives id n sent f
      → Receives id n (sent ++ es) (send_backlog id es f)
  unfolding send_backlog
  send_backlog-Receives id n es sent f (ch, l, h) = (
    send_all ch es,
    ground (arith, l, lookup-insert id id (send_all ch es) f.subs, ==_iff id id),
    send_all-Holds n es sent ch h,
  )

  subscribe-Receives :
      (f : Fanout A) (id n : ℕ) (replay : Bool)
      → Receives id n (if replay then snapshot f else []) (subscribe f id (pos (suc n)) replay)
  unfolding subscribe register
  subscribe-Receives f id n replay =
      let r = register f id (pos (suc n)) replay in
      send_backlog-Receives id n r.1 [] r.0 (register-Receives f id n replay)

  -- Entries that are published while a subscription waits between the mutex and its backlog come before
  -- the backlog: where nothing has been received, the channel holds the last entries, as many as it may,
  -- of these, the backlog, and what is published behind it.
  pub register-publish_all :
      (blank : A) (ring id n : ℕ) (before between after : List A)
      → let r = register (publish_all (new_fanout blank (pos ring)) before) id (pos (suc n)) true in
        Receives id n
          ((between ++ last_n ring before) ++ after)
          (publish_all (send_backlog id r.1 (publish_all r.0 between)) after)
  register-publish_all blank ring id n before between after =
      let f = publish_all (new_fanout blank (pos ring)) before in
      let r = register f id (pos (suc n)) true in
      let read : r.1 ≡ snapshot f = unfold register in refl in
      let backlog : r.1 ≡ last_n ring before = read ∙ snapshot-publish_all blank ring before in
      let waited = publish_all-Receives id n between [] r.0 (register-Receives f id n true) in
      publish_all-Receives id n after (between ++ last_n ring before)
        (send_backlog id r.1 (publish_all r.0 between))
        (subst (λ b. Receives id n (between ++ b) (send_backlog id r.1 (publish_all r.0 between)))
          backlog (send_backlog-Receives id n r.1 between (publish_all r.0 between) waited))

  -- A subscriber that has received nothing finds the last entries in its channel, as many as it
  -- holds, of those that are replayed from before it subscribed and those published since.
  pub subscribe-publish_all :
      (blank : A) (ring id n : ℕ) (before after : List A) (replay : Bool)
      → Receives id n ((if replay then last_n ring before else []) ++ after) (
          publish_all
            (subscribe (publish_all (new_fanout blank (pos ring)) before) id (pos (suc n)) replay)
            after)
  subscribe-publish_all blank ring id n before after replay =
      let f = publish_all (new_fanout blank (pos ring)) before in
      publish_all-Receives id n after (if replay then last_n ring before else [])
        (subscribe f id (pos (suc n)) replay)
        (subst (λ s. Receives id n (if replay then s else []) (subscribe f id (pos (suc n)) replay))
          (snapshot-publish_all blank ring before) (subscribe-Receives f id n replay))

  publish_all-none :
      (id : ℕ) (es : List A) (f : Fanout A)
      → lookup id f.subs ≡ none
      → lookup id (publish_all f es).subs ≡ none
  unfolding publish_all publish
  publish_all-none id [] f h = h
  publish_all-none id (e ∷ es) f h = publish_all-none id es (publish f e) (
      ground (
        arith,
        lookup-send_to_subs e id (ring_put f e).subs,
        ap (λ s. lookup id s) (ring_put-subs f e) ∙ h,
      ))

  -- Nothing is sent to a channel that is closed, and the other channels are as they were.
  pub unsubscribe-publish_all :
      (f : Fanout A) (id : ℕ) (es : List A)
      → (lookup id (publish_all (unsubscribe f id) es).subs ≡ none)
        × ((other : ℕ)
            → (id == other) ≡ false
            → lookup other (unsubscribe f id).subs ≡ lookup other f.subs)
  unsubscribe-publish_all f id es = (
    publish_all-none id es (unsubscribe f id)
        (unfold unsubscribe in ground (arith, lookup-delete id id f.subs, ==_iff id id)),
    λ other n. unfold unsubscribe in lookup-delete id other f.subs ∙ ground (arith, n),
  )
