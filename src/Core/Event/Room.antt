-- ===== src/Core/Event/Room.antt =====
-- crates/core/src/event.rs: room that was checked is room that is there.
use rfq_matching_settlement.Prelude.{
  ℕ, ◌+◌, ◌≤◌, ◌≡◌, refl, List, [], ◌∷◌, ◌++◌, length, length-append, arith,
}
use rfq_matching_settlement.Prelude.Result.{ok}
use rfq_matching_settlement.Core.Event.{Event, EventBuffer, headroom, push}

-- Events written one after another.
unfoldable pub push_all : List Event → EventBuffer → EventBuffer
push_all [] b = b
push_all (e ∷ es) b = push_all es (push e b)

append-cons :
    (xs : List Event) (e : Event) (ys : List Event) → (xs ++ (e ∷ [])) ++ ys ≡ xs ++ (e ∷ ys)
append-cons [] e ys = refl
append-cons (x ∷ xs) e ys = rw (append-cons xs e ys) refl

append_nil : (xs : List Event) → xs ++ [] ≡ xs
append_nil [] = refl
append_nil (x ∷ xs) = rw (append_nil xs) refl

pub push_all_fits :
    (es : List Event) (b : EventBuffer)
    → length b.events + length es ≤ b.capacity
    → (push_all es b).events ≡ b.events ++ es
unfolding push_all push
push_all_fits [] b h = rw (append_nil b.events) refl
push_all_fits (e ∷ es) b h =
    let b' : EventBuffer = record b { events = b.events ++ (e ∷ []) } in
    let room = length-append b.events (e ∷ []) in
    ground (arith, push_all_fits es b', append-cons b.events e es, room)

-- Where a buffer has said that it has headroom for a number of events, that many events, or fewer, are all
-- written, in order, after those that are there: none is dropped.
pub push_all-headroom :
    (needed : ℕ) (es : List Event) (b : EventBuffer)
    → headroom needed b ≡ ok tt
    → length es ≤ needed
    → (push_all es b).events ≡ b.events ++ es
unfolding headroom
push_all-headroom needed es b h few = push_all_fits es b (ground arith)
