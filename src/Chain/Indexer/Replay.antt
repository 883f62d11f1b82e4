-- ===== src/Chain/Indexer/Replay.antt =====
-- crates/chain/src/indexer.rs: entries read twice are delivered once.
use rfq_matching_settlement.Prelude.{
  ℕ, ◌≡◌, ◌⊎◌, refl, inl, inr, true, false, none, some, List, [], ◌∷◌, arith, Option-cases,
  Bool-cases, ltb, map, ◌-◌, ◌∙◌, ap, checked_sub, saturating_add, u64_max, if◌then◌else◌,
}
use mathlib.Core.Path.{subst}
use rfq_matching_settlement.Core.Command.{Command}
use rfq_matching_settlement.Chain.Log.{ChainEvent, ChainLog, TxHash}
use rfq_matching_settlement.Chain.Indexer.{
  Indexer, key_of, seen, hash_eq, read_entry, drain_from, drain, rewind, translate, horizon, skip,
}

hash_eq_self : (h : TxHash) → hash_eq h h ≡ true
hash_eq_self [] = refl
hash_eq_self (b ∷ bs) = ground (arith, hash_eq_self bs)

-- What was delivered before a walk is delivered after it.
drain_from_keeps :
    (top : ℕ) (es : List ChainEvent) (x : Indexer) (k : TxHash × ℕ)
    → seen k x.delivered ≡ true
    → seen k (drain_from top es x).1.delivered ≡ true
unfolding drain_from read_entry
drain_from_keeps top [] x k h = h
drain_from_keeps top (e ∷ es) x k h =
    let read = (read_entry e x).1 in
    let kept : seen k read.delivered ≡ true = ground arith in
    ground (arith, drain_from_keeps top es read k kept)

-- A walk leaves every confirmed entry, up to the first that is not, delivered.
abbrev pub Delivered : ℕ → List ChainEvent → Indexer → Type 0
Delivered top [] x = Unit {0}
Delivered top (e ∷ es) x =
    (ltb top e.block ≡ true) ⊎ ((seen (key_of e) x.delivered ≡ true) × Delivered top es x)

Delivered-mono :
    (top : ℕ) (es : List ChainEvent) (x y : Indexer)
    → ((k : TxHash × ℕ) → seen k x.delivered ≡ true → seen k y.delivered ≡ true)
    → Delivered top es x
    → Delivered top es y
Delivered-mono top [] x y m h = tt
Delivered-mono top (e ∷ es) x y m (inl late) = inl late
Delivered-mono top (e ∷ es) x y m (inr h) = inr (m (key_of e) h.0, Delivered-mono top es x y m h.1)

-- The entry read is delivered.
read_entry-seen :
    (e : ChainEvent) (x : Indexer) → seen (key_of e) (read_entry e x).1.delivered ≡ true
unfolding read_entry
read_entry-seen e x = ground (arith, hash_eq_self e.tx_hash)

drain_from-Delivered :
    (top : ℕ) (es : List ChainEvent) (x : Indexer) → Delivered top es (drain_from top es x).1
unfolding drain_from
drain_from-Delivered top [] x = tt
drain_from-Delivered top (e ∷ es) x = elim (Bool-cases (ltb top e.block)) [
  | inl late ↦ inl late
  | inr young ↦
      let read = (read_entry e x).1 in
      rw young (
        inr (
          drain_from_keeps top es read (key_of e) (read_entry-seen e x),
          drain_from-Delivered top es read,
        ))
]

-- A walk over delivered entries emits nothing.
drain_from_silent :
    (top : ℕ) (es : List ChainEvent) (x : Indexer)
    → Delivered top es x
    → (drain_from top es x).0 ≡ []
unfolding drain_from read_entry
drain_from_silent top [] x h = refl
drain_from_silent top (e ∷ es) x (inl late) = rw late refl
drain_from_silent top (e ∷ es) x (inr h) =
    let moved : Indexer = record x { cursor = saturating_add u64_max x.cursor 1 } in
    ground
      (arith, h.0, drain_from_silent top es moved (Delivered-mono top es x moved (λ k q. q) h.1))

drain_from_confirmations :
    (top : ℕ) (es : List ChainEvent) (x : Indexer)
    → (drain_from top es x).1.confirmations ≡ x.confirmations
unfolding drain_from read_entry
drain_from_confirmations top [] x = refl
drain_from_confirmations top (e ∷ es) x =
    ground (arith, drain_from_confirmations top es (read_entry e x).1)

-- A drain is a walk from the cursor.
drain_walk :
    (log : ChainLog) (x : Indexer) (top : ℕ)
    → horizon x log.head ≡ some top
    → drain log x ≡ drain_from top (skip x.cursor log.entries) x
unfolding drain
drain_walk log x top e = rw (drain, e) refl

drain_young : (log : ChainLog) (x : Indexer) → horizon x log.head ≡ none → drain log x ≡ ([], x)
unfolding drain
drain_young log x e = rw (drain, e) refl

-- An indexer that has drained the log from its start and lost its position, but not its set of
-- delivered keys, delivers nothing when it drains the same log again.
pub replay_silent :
    (log : ChainLog) (x : Indexer) → x.cursor ≡ 0 → (drain log (rewind (drain log x).1)).0 ≡ []
unfolding rewind
replay_silent log x start = elim (Option-cases (horizon x log.head)) [
  | inl e ↦
      rw (drain_young log x e)
        (ap (λ (r : List Command × Indexer). r.0) (drain_young log (rewind x) e))
  | inr (top, e) ↦
      let y = (drain_from top (skip x.cursor log.entries) x).1 in
      let same : horizon y log.head ≡ some top =
        ap (λ (n : ℕ). checked_sub log.head n)
          (drain_from_confirmations top (skip x.cursor log.entries) x)
        ∙ e in
      let again : Delivered top log.entries y =
        subst (λ es. Delivered top es y) (ap (λ (n : ℕ). skip n log.entries) start)
          (drain_from-Delivered top (skip x.cursor log.entries) x) in
      rw (drain_walk log x top e) (
        ap (λ (r : List Command × Indexer). r.0) (drain_walk log (rewind y) top same)
        ∙ drain_from_silent top log.entries (rewind y)
            (Delivered-mono top log.entries y (rewind y) (λ k q. q) again))
]

-- The confirmed entries: those before the first that is past the horizon.
abbrev pub confirmed : ℕ → List ChainEvent → List ChainEvent
confirmed top [] = []
confirmed top (e ∷ es) = if ltb top e.block then [] else e ∷ confirmed top es

-- No key of the list is among those given, or stands in it twice.
abbrev pub Fresh : List ChainEvent → List (TxHash × ℕ) → Type 0
Fresh [] ks = Unit {0}
Fresh (e ∷ es) ks = (seen (key_of e) ks ≡ false) × Fresh es (key_of e ∷ ks)

drain_from_all :
    (top : ℕ) (es : List ChainEvent) (x : Indexer)
    → Fresh es x.delivered
    → (drain_from top es x).0 ≡ map translate (confirmed top es)
unfolding drain_from read_entry
drain_from_all top [] x h = refl
drain_from_all top (e ∷ es) x h =
    let read : Indexer = record x {
      cursor = saturating_add u64_max x.cursor 1;
      delivered = key_of e ∷ x.delivered;
    } in
    ground (arith, h.0, drain_from_all top es read h.1)

-- Where no key repeats, draining turns every entry that is deep enough, from the cursor up to the
-- first that is not, into its command, once and in log order; on a chain younger than the
-- confirmation depth it delivers nothing.
pub drain_all :
    (log : ChainLog) (x : Indexer)
    → Fresh (skip x.cursor log.entries) x.delivered
    → (drain log x).0 ≡ (
        if ltb log.head x.confirmations
        then []
        else map translate (confirmed (log.head - x.confirmations) (skip x.cursor log.entries)))
drain_all log x fresh = elim (Option-cases (horizon x log.head)) [
  | inl e ↦ ground (arith, drain_young log x e)
  | inr (top, e) ↦
      rw (drain_walk log x top e)
        (ground (arith, e, drain_from_all top (skip x.cursor log.entries) x fresh))
]
