-- ===== src/Log/Fanout/Ring.antt =====
-- The ring holds the entries published last, in their order.
use native.Mathlib.Nat.{mod-eq_of_lt, mod_self}
use mathlib.Core.Path.{subst}
use mathlib.Core.List.{append_assoc, append-nil}
use sis.Base.{
  ℕ, zero, suc, ◌+◌, ◌-◌, ◌%◌, ◌≤◌, ◌≡◌, refl, sym, ap, ◌∙◌, inl, inr, Bool, ◌||◌, List, [], ◌∷◌,
  ◌++◌, arith, if◌then◌else◌, ◌==◌, length, take, length-append, drop_first, last_n, last_n-append,
  length-last_n, Bool-cases,
}
use sis.Base.Int.{pos}
use sis.Log.Fanout.{Fanout, replicate, new_fanout, snapshot, set_at, ring_put, publish, publish_all}

module _ {A : Type 0} where
  pub take-length : (xs ys : List A) → take (length xs) (xs ++ ys) ≡ xs
  take-length [] ys = refl
  take-length (x ∷ xs) ys = ap (λ l. x ∷ l) (take-length xs ys)

  pub drop_first-length : (xs ys : List A) → drop_first (length xs) (xs ++ ys) ≡ ys
  drop_first-length [] ys = refl
  drop_first-length (x ∷ xs) ys = drop_first-length xs ys

  set_at-length : (e x : A) (xs ys : List A) → set_at (length xs) e (xs ++ x ∷ ys) ≡ xs ++ e ∷ ys
  unfolding set_at
  set_at-length e x [] ys = refl
  set_at-length e x (y ∷ xs) ys = ap (λ l. y ∷ l) (set_at-length e x xs ys)

  length-replicate : (n : ℕ) (a : A) → length (replicate n a) ≡ n
  length-replicate zero a = refl
  length-replicate (suc n) a = omega (arith, length-replicate n a)

  pub last_n-short : (n : ℕ) (xs : List A) → length xs ≤ n → last_n n xs ≡ xs
  last_n-short n xs h = let none : length xs - n ≡ 0 = omega arith in ap (λ k. drop_first k xs) none

  pub last_n-full :
      (n : ℕ) (x e : A) (xs : List A)
      → length (x ∷ xs) ≡ n
      → last_n n ((x ∷ xs) ++ e ∷ []) ≡ xs ++ e ∷ []
  last_n-full n x e xs h =
      let one : length ((x ∷ xs) ++ e ∷ []) - n ≡ 1 =
        omega (arith, length-append (x ∷ xs) (e ∷ []), h) in
      ap (λ k. drop_first k ((x ∷ xs) ++ e ∷ [])) one

  length-zero : (xs : List A) → length xs ≡ 0 → xs ≡ []
  length-zero [] h = refl
  length-zero (x ∷ xs) h = ground arith

  ends_nonempty : (xs : List A) (e : A) → (y : A) × (ys : List A) × (xs ++ e ∷ [] ≡ y ∷ ys)
  ends_nonempty [] e = (e, [], refl)
  ends_nonempty (x ∷ xs) e = (x, xs ++ e ∷ [], refl)

  -- What stands before and from the place that is written next: what is behind is the oldest.
  pub record Ring (n : ℕ) (window : List A) (f : Fanout A) : Type 0 where
    pub newer : List A
    pub oldest : A
    pub older : List A
    pub ring_is : f.ring ≡ newer ++ oldest ∷ older
    pub next_is : f.next ≡ length newer
    pub size : length f.ring ≡ n
    pub held : window ≡ (if f.filled then (oldest ∷ older) ++ newer else newer)

  Ring-length :
      (n : ℕ) (w : List A) (f : Fanout A) (r : Ring n w f)
      → n ≡ length r.newer + suc (length r.older)
  Ring-length n w f r =
      omega (arith, r.size, ap length r.ring_is, length-append r.newer (r.oldest ∷ r.older))

  Ring-snapshot : (n : ℕ) (w : List A) (f : Fanout A) → Ring n w f → snapshot f ≡ w
  unfolding snapshot
  Ring-snapshot n w f r =
      let behind =
        ap (λ k. drop_first k f.ring) r.next_is
        ∙ ap (drop_first (length r.newer)) r.ring_is
        ∙ drop_first-length r.newer (r.oldest ∷ r.older) in
      let before =
        ap (λ k. take k f.ring) r.next_is
        ∙ ap (take (length r.newer)) r.ring_is
        ∙ take-length r.newer (r.oldest ∷ r.older) in
      ground
        (arith, behind, before, r.held, r.size, Ring-length n w f r, r.next_is, length-zero r.newer)

  -- The fanout with the entry written over the oldest one.
  written : Fanout A → A → List A → List A → ℕ → Bool → Fanout A
  written f e newer older next filled = record f {
    ring = newer ++ e ∷ older;
    next = next;
    filled = filled;
  }

  ring_put-written :
      (n : ℕ) (w : List A) (f : Fanout A) (e : A) (r : Ring n w f)
      → let next = (length r.newer + 1) % n in
        ring_put f e ≡ written f e r.newer r.older next (f.filled || next == 0)
  unfolding ring_put written
  ring_put-written n w f e r =
      let set : set_at f.next e f.ring ≡ r.newer ++ e ∷ r.older =
        ap (λ k. set_at k e f.ring) r.next_is
        ∙ ap (set_at (length r.newer) e) r.ring_is
        ∙ set_at-length e r.oldest r.newer r.older in
      ground (arith, set, r.size, Ring-length n w f r, r.next_is)

  -- The window moves by one entry.
  moved :
      (n : ℕ) (w : List A) (f : Fanout A) (e : A) (r : Ring n w f)
      → last_n n (w ++ e ∷ []) ≡ (if f.filled then r.older ++ r.newer else r.newer) ++ e ∷ []
  moved n w f e r = elim (Bool-cases f.filled) [
    | inl g ↦
        let is : w ≡ r.oldest ∷ (r.older ++ r.newer) = ground (arith, r.held, g) in
        let long : length (r.oldest ∷ (r.older ++ r.newer)) ≡ n =
          omega (arith, Ring-length n w f r, length-append r.older r.newer) in
        ap (λ v. last_n n (v ++ e ∷ [])) is
        ∙ last_n-full n r.oldest e (r.older ++ r.newer) long
        ∙ ground (arith, g)
    | inr g ↦
        let is : w ≡ r.newer = ground (arith, r.held, g) in
        let short : length (r.newer ++ e ∷ []) ≤ n =
          omega (arith, Ring-length n w f r, length-append r.newer (e ∷ [])) in
        ap (λ v. last_n n (v ++ e ∷ [])) is
        ∙ last_n-short n (r.newer ++ e ∷ []) short
        ∙ ground (arith, g)
  ]

  -- Behind the entry that is written stands an older one, or it was the last of the ring.
  written-Ring :
      (n : ℕ) (f : Fanout A) (e : A) (newer older : List A)
      → n ≡ length newer + suc (length older)
      → let next = (length newer + 1) % n in
        Ring n
          ((if f.filled then older ++ newer else newer) ++ e ∷ [])
          (written f e newer older next (f.filled || next == 0))
  unfolding written
  written-Ring n f e newer (o ∷ os) h =
      let a = length newer + 1 in
      let stays : a % n ≡ a = mod-eq_of_lt (omega arith) in
      record {
        newer = newer ++ e ∷ [];
        oldest = o;
        older = os;
        ring_is = sym (append_assoc newer (e ∷ []) (o ∷ os));
        next_is = omega (arith, stays, length-append newer (e ∷ []));
        size = omega (arith, length-append newer (e ∷ o ∷ os));
        held = ground (arith, stays, append_assoc (o ∷ os) newer (e ∷ []));
      }
  written-Ring n f e newer [] h =
      let (y, ys, is) = ends_nonempty newer e in
      let whole : length newer + 1 ≡ n = omega arith in
      let wraps : (length newer + 1) % n ≡ 0 = ap (λ k. k % n) whole ∙ mod_self n in
      record {
        newer = [];
        oldest = y;
        older = ys;
        ring_is = is;
        next_is = wraps;
        size = omega (arith, length-append newer (e ∷ []));
        held = ground (arith, wraps, is, append-nil (y ∷ ys));
      }

  Ring-put :
      (n : ℕ) (w : List A) (f : Fanout A) (e : A)
      → Ring n w f
      → Ring n (last_n n (w ++ e ∷ [])) (ring_put f e)
  Ring-put n w f e r =
      subst (λ v. Ring n v (ring_put f e)) (sym (moved n w f e r))
        (subst (Ring n _) (sym (ring_put-written n w f e r))
          (written-Ring n f e r.newer r.older (Ring-length n w f r)))

  Ring-publish :
      (n : ℕ) (w : List A) (f : Fanout A) (e : A)
      → Ring n w f
      → Ring n (last_n n (w ++ e ∷ [])) (publish f e)
  unfolding publish
  Ring-publish n w f e r =
      let g = Ring-put n w f e r in
      record {
        newer = g.newer;
        oldest = g.oldest;
        older = g.older;
        ring_is = g.ring_is;
        next_is = g.next_is;
        size = g.size;
        held = g.held;
      }

  Ring-publish_all :
      (n : ℕ) (es w : List A) (f : Fanout A)
      → Ring n w f
      → length w ≤ n
      → Ring n (last_n n (w ++ es)) (publish_all f es)
  unfolding publish_all
  Ring-publish_all n [] w f r h =
      subst (λ v. Ring n v f) (sym (ap (last_n n) (append-nil w) ∙ last_n-short n w h)) r
  Ring-publish_all n (e ∷ es) w f r h =
      let v = last_n n (w ++ e ∷ []) in
      let rest =
        Ring-publish_all n es v (publish f e) (Ring-publish n w f e r)
          (length-last_n n (w ++ e ∷ [])) in
      let same = last_n-append n (w ++ e ∷ []) es ∙ ap (last_n n) (append_assoc w (e ∷ []) es) in
      subst (λ u. Ring n u (publish_all (publish f e) es)) same rest

  new_fanout-Ring : (blank : A) (n : ℕ) → Ring (suc n) [] (new_fanout blank (pos (suc n)))
  unfolding new_fanout
  new_fanout-Ring blank n = record {
    newer = [];
    oldest = blank;
    older = replicate n blank;
    ring_is = refl;
    next_is = refl;
    size = omega (arith, length-replicate n blank);
    held = refl;
  }

  publish_all_empty :
      (blank : A) (es : List A) (f : Fanout A) → f.ring ≡ [] → snapshot (publish_all f es) ≡ []
  unfolding snapshot publish_all publish ring_put
  publish_all_empty blank [] f h = ground (arith, h)
  publish_all_empty blank (e ∷ es) f h =
      publish_all_empty blank es (publish f e) (unfold publish ring_put in ground (arith, h))

  last_n-zero : (xs : List A) → last_n 0 xs ≡ []
  last_n-zero xs = length-zero (last_n 0 xs) (omega (arith, length-last_n 0 xs))

  -- Of all that was published since the start, the ring gives back the last entries, as many as it has
  -- places, in their order.
  pub snapshot-publish_all :
      (blank : A) (n : ℕ) (es : List A)
      → snapshot (publish_all (new_fanout blank (pos n)) es) ≡ last_n n es
  snapshot-publish_all blank zero es =
      publish_all_empty blank es (new_fanout blank (pos 0)) (unfold new_fanout in refl)
      ∙ sym (last_n-zero es)
  snapshot-publish_all blank (suc n) es =
      let start = new_fanout blank (pos (suc n)) in
      Ring-snapshot (suc n) (last_n (suc n) es) (publish_all start es)
        (Ring-publish_all (suc n) es [] start (new_fanout-Ring blank n) (omega arith))
