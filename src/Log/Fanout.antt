-- ===== src/Log/Fanout.antt =====
-- internal/log/fanout.go: the ring of recent entries and the channels of the subscribers. A channel is
-- known by a number; its buffer is what the subscriber has not received. An entry of the ring that was
-- never written is the zero entry.
pub mod Ring
pub mod Channels
use sis.Base.{
  ℕ, zero, suc, ◌+◌, ◌%◌, Bool, true, false, not, ◌&&◌, ◌||◌, Option, none, some, List, [], ◌∷◌,
  ◌++◌, if◌then◌else◌, ltb, leb, ◌==◌, length, take, drop_first, Eq, ==_iff,
}
use sis.Base.Int.{ℤ, pos, negsuc}
use sis.Base.Map.{lookup, insert, delete}

instance abbrev pub number_eq : Eq ℕ
number_eq = record { beq = ◌==◌; beq_iff = ==_iff }

pub record Channel (A : Type 0) : Type 0 where
  pub size : ℕ
  pub buffer : List A

pub record Fanout (A : Type 0) : Type 0 where
  pub subs : List (ℕ × Channel A)
  pub ring : List A
  pub next : ℕ
  pub filled : Bool

module _ {A : Type 0} where
  abbrev pub replicate : ℕ → A → List A
  replicate zero a = []
  replicate (suc n) a = a ∷ replicate n a

  unfoldable pub new_fanout : A → ℤ → Fanout A
  new_fanout blank (pos n) = record {
    subs = [];
    ring = replicate n blank;
    next = 0;
    filled = false;
  }
  new_fanout blank (negsuc n) = record { subs = []; ring = []; next = 0; filled = false }

  -- `dropOldestSend`, where nothing is received meanwhile.
  unfoldable pub drop_oldest_send : Channel A → A → Channel A
  drop_oldest_send ch e =
      if ltb (length ch.buffer) ch.size
      then record ch { buffer = ch.buffer ++ e ∷ [] }
      else (let received = drop_first 1 ch.buffer in
          if ltb (length received) ch.size
          then record ch { buffer = received ++ e ∷ [] }
          else record ch { buffer = received })

  unfoldable pub send_all : Channel A → List A → Channel A
  unfolding drop_oldest_send
  send_all ch [] = ch
  send_all ch (e ∷ es) = send_all (drop_oldest_send ch e) es

  unfoldable pub snapshot : Fanout A → List A
  snapshot f =
      if length f.ring == 0 || (not f.filled && f.next == 0)
      then []
      else if not f.filled
      then take f.next f.ring
      else drop_first f.next f.ring ++ take f.next f.ring

  -- `ring[i] = e`.
  unfoldable pub set_at : ℕ → A → List A → List A
  set_at i e [] = []
  set_at zero e (x ∷ xs) = e ∷ xs
  set_at (suc i) e (x ∷ xs) = x ∷ set_at i e xs

  unfoldable pub send_to_subs : A → List (ℕ × Channel A) → List (ℕ × Channel A)
  unfolding drop_oldest_send
  send_to_subs e [] = []
  send_to_subs e ((id, ch) ∷ subs) = (id, drop_oldest_send ch e) ∷ send_to_subs e subs

  -- The entry in the ring.
  unfoldable pub ring_put : Fanout A → A → Fanout A
  unfolding set_at
  ring_put f e =
      if length f.ring == 0
      then f
      else (let next = (f.next + 1) % length f.ring in
          record f { ring = set_at f.next e f.ring; next = next; filled = f.filled || next == 0 })

  unfoldable pub publish : Fanout A → A → Fanout A
  unfolding ring_put send_to_subs
  publish f e = let g = ring_put f e in record g { subs = send_to_subs e g.subs }

  unfoldable pub publish_all : Fanout A → List A → Fanout A
  unfolding publish
  publish_all f [] = f
  publish_all f (e ∷ es) = publish_all (publish f e) es

  -- What `subscribe` does under the mutex, with the number of a channel that is new: the channel is
  -- registered, and the backlog read.
  unfoldable pub register : Fanout A → ℕ → ℤ → Bool → Fanout A × List A
  unfolding snapshot
  register f id size replay =
      let ch : Channel A = record {
        size = elim size [ pos zero ↦ 1 | pos (suc n) ↦ suc n | negsuc n ↦ 1 ];
        buffer = [];
      } in
      (record f { subs = insert id ch f.subs }, if replay then snapshot f else [])

  -- What it does behind the mutex; the channel, known to nobody else yet, is still registered.
  unfoldable pub send_backlog : ℕ → List A → Fanout A → Fanout A
  unfolding send_all
  send_backlog id backlog f = elim (lookup id f.subs) [
    | none ↦ f
    | some ch ↦ record f { subs = insert id (send_all ch backlog) f.subs }
  ]

  -- `subscribe` with nothing between the two.
  unfoldable pub subscribe : Fanout A → ℕ → ℤ → Bool → Fanout A
  unfolding register send_backlog
  subscribe f id size replay =
      let (g, backlog) = register f id size replay in send_backlog id backlog g

  -- `unsubscribe`: the channel is closed.
  unfoldable pub unsubscribe : Fanout A → ℕ → Fanout A
  unsubscribe f id = record f { subs = delete id f.subs }
