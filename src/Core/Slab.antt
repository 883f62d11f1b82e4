-- ===== src/Core/Slab.antt =====
-- crates/core/src/slab.rs: the generation-counted slab. A handle's phantom type is dropped: one
-- type of handles serves every slab.
pub mod Free
pub mod Freeing
pub mod Reads
pub mod Fresh
pub mod Past
pub mod Stale
use rfq_matching_settlement.Prelude.{
  ℕ, zero, suc, ◌+◌, ◌-◌, Bool, true, false, not, ◌&&◌, Option, none, some, List, [], ◌∷◌, length,
  get_elem?, set, ltb, ◌==◌, if◌then◌else◌, u32_max, saturating_add, saturating_sub,
}
use rfq_matching_settlement.Prelude.Result.{Result, ok, err}

-- `NIL`, the link that names no slot.
abbrev pub nil : ℕ
nil = u32_max

pub record Handle : Type 0 where
  pub index : ℕ
  pub generation : ℕ

abbrev pub handle_eq : Handle → Handle → Bool
handle_eq a b = a.index == b.index && a.generation == b.generation

pub data SlabFull : Type 0 where
  slab_full : SlabFull

module _ {ℓ} where
  pub data SlotState (A : Type ℓ) : Type ℓ where
    vacant : (next : ℕ) → SlotState A
    occupied : A → SlotState A

  pub record Slot (A : Type ℓ) : Type ℓ where
    pub generation : ℕ
    pub state : SlotState A

  pub record Slab (A : Type ℓ) : Type ℓ where
    pub slots : List (Slot A)
    pub free_head : ℕ
    pub live : ℕ

module _ {A : Type 0} where
  -- The slots `index ..` of a new slab of the given capacity, each linked to its successor.
  unfoldable pub fresh_slots : ℕ → ℕ → ℕ → List (Slot A)
  fresh_slots zero index capacity = []
  fresh_slots (suc rounds) index capacity =
      record {
        generation = 0;
        state = vacant (if ltb (index + 1) capacity then index + 1 else nil);
      }
      ∷ fresh_slots rounds (index + 1) capacity

  -- `Slab::with_capacity`: `none` is the startup panic on the capacity that is the nil link.
  unfoldable pub with_capacity : ℕ → Option (Slab A)
  unfolding fresh_slots
  with_capacity capacity =
      if ltb capacity nil
      then some (record {
        slots = fresh_slots capacity 0 capacity;
        free_head = if capacity == 0 then nil else 0;
        live = 0;
      })
      else none

  -- `Slab::capacity`, with `unwrap_or(NIL)`.
  abbrev pub capacity : Slab A → ℕ
  capacity s = if ltb nil (length s.slots) then nil else length s.slots

  abbrev pub has_room : Slab A → Bool
  has_room s = not (s.free_head == nil)

  -- The slot at the head of the free list is taken, if it is there and vacant.
  take_slot : Option (Slot A) → A → Slab A → Result SlabFull Handle × Slab A
  take_slot none value s = (err slab_full, s)
  take_slot (some slot) value s = elim slot.state [
    | occupied v ↦ (err slab_full, s)
    | vacant next ↦ (
      ok (record { index = s.free_head; generation = slot.generation }),
      record {
        slots = set s.slots s.free_head (record slot { state = occupied value });
        free_head = next;
        live = saturating_add u32_max s.live 1;
      },
    )
  ]

  unfoldable pub insert : A → Slab A → Result SlabFull Handle × Slab A
  unfolding take_slot
  insert value s = take_slot (get_elem? s.slots s.free_head) value s

  -- What a state holds.
  abbrev pub value_of : SlotState A → Option A
  value_of (vacant next) = none
  value_of (occupied v) = some v

  -- A slot read through a handle's generation.
  abbrev pub read_slot : Option (Slot A) → ℕ → Option A
  read_slot none generation = none
  read_slot (some slot) generation =
      if slot.generation == generation then value_of slot.state else none

  unfoldable pub get : Slab A → Handle → Option A
  get s h = read_slot (get_elem? s.slots h.index) h.generation

  -- The slot's value replaced, if the handle's generation is the slot's and there is one.
  abbrev pub write_slot : Option (Slot A) → Handle → (A → A) → Slab A → Slab A
  write_slot none h f s = s
  write_slot (some slot) h f s =
      if slot.generation == h.generation
      then elim slot.state [
        | vacant next ↦ s
        | occupied v ↦ record s {
          slots = set s.slots h.index (record slot { state = occupied (f v) });
        }
      ]
      else s

  -- `Slab::get_mut`, and a write through the reference that it returns; nothing on a stale handle.
  unfoldable pub modify : Handle → (A → A) → Slab A → Slab A
  modify h f s = write_slot (get_elem? s.slots h.index) h f s

  -- A slot that is given back: to the free list under the next generation, or, where the counter
  -- is used up, to nobody.
  abbrev pub vacated : Slot A → ℕ → Slot A
  vacated slot free_head =
      if ltb slot.generation u32_max
      then record { generation = slot.generation + 1; state = vacant free_head }
      else record { generation = slot.generation; state = vacant nil }

  abbrev pub free_slot : Option (Slot A) → Handle → Slab A → Option A × Slab A
  free_slot none h s = (none, s)
  free_slot (some slot) h s =
      if slot.generation == h.generation
      then elim slot.state [
        | vacant next ↦ (none, s)
        | occupied v ↦ (
          some v,
          record {
            slots = set s.slots h.index (vacated slot s.free_head);
            free_head = if ltb slot.generation u32_max then h.index else s.free_head;
            live = saturating_sub s.live 1;
          },
        )
      ]
      else (none, s)

  -- `Slab::remove`.
  unfoldable pub remove : Handle → Slab A → Option A × Slab A
  remove h s = free_slot (get_elem? s.slots h.index) h s

  abbrev pub occupant : Option (Slot A) → ℕ → Option Handle
  occupant none index = none
  occupant (some slot) index = elim slot.state [
    | vacant next ↦ none
    | occupied v ↦ some (record { index = index; generation = slot.generation })
  ]

  unfoldable pub handle_at : Slab A → ℕ → Option Handle
  handle_at s index = occupant (get_elem? s.slots index) index

  -- `Slab::iter`, from slot `index` on.
  unfoldable pub entries_from : ℕ → List (Slot A) → List (Handle × A)
  entries_from index [] = []
  entries_from index (slot ∷ rest) = elim slot.state [
    | vacant next ↦ entries_from (index + 1) rest
    | occupied v ↦
        (record { index = index; generation = slot.generation }, v) ∷ entries_from (index + 1) rest
  ]

  unfoldable pub entries : Slab A → List (Handle × A)
  unfolding entries_from
  entries s = entries_from 0 s.slots
