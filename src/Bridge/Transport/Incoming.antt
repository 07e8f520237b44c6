-- ===== src/Bridge/Transport/Incoming.antt =====
-- The reassembly of messages from the byte stream.
use ros2_modular_edge_offloa.Common.{
  ℕ, zero, suc, ◌+◌, ◌<◌, ◌≤◌, ◌≡◌, refl, ap, inl, inr, none, some, arith, List, [], ◌∷◌, ◌++◌,
  append_assoc, Bytes, All, length, take, drop, get_or, length-append, length-drop, ltb, leb,
  Bool-cases, Option-cases,
}
use ros2_modular_edge_offloa.Wire.Parse.{ParsedHeaderInfo, parse_message_header}
use ros2_modular_edge_offloa.Bridge.Routing.{RoutingTable}
use ros2_modular_edge_offloa.Bridge.Transport.{
  Action, enqueue, notify_critical_error, header_parsing_failed, route, drain,
}

-- Facts about the header of a buffer.
pub total_bounds :
    (b : Bytes) (h : ParsedHeaderInfo)
    → parse_message_header b ≡ some h
    → (11 ≤ h.total_message_length) × (11 ≤ length b)
unfolding parse_message_header
total_bounds b h e = ground arith

get_or-append : (a b : Bytes) (i : ℕ) → i < length a → get_or (a ++ b) i 0 ≡ get_or a i 0
get_or-append [] b i h = elim h [ ]
get_or-append (x ∷ a) b zero h = refl
get_or-append (x ∷ a) b (suc i) h = get_or-append a b i (omega arith)

-- More bytes behind a readable header do not change what is read.
pub parse-append :
    (a b : Bytes) (h : ParsedHeaderInfo)
    → parse_message_header a ≡ some h
    → parse_message_header (a ++ b) ≡ some h
unfolding parse_message_header
parse-append a b h e = ground (
  arith,
  total_bounds a h e,
  get_or-append a b 0,
  get_or-append a b 1,
  get_or-append a b 3,
  get_or-append a b 4,
  get_or-append a b 5,
  get_or-append a b 6,
  get_or-append a b 7,
  get_or-append a b 8,
  get_or-append a b 9,
  get_or-append a b 10,
  length-append a b,
)

pub take-append : (n : ℕ) (a b : Bytes) → n ≤ length a → take n (a ++ b) ≡ take n a
take-append zero a b h = refl
take-append (suc n) [] b h = absurd (omega arith)
take-append (suc n) (x ∷ a) b h = ap (◌∷◌ x) (take-append n a b (omega arith))

pub drop-append : (n : ℕ) (a b : Bytes) → n ≤ length a → drop n (a ++ b) ≡ drop n a ++ b
drop-append zero a b h = refl
drop-append (suc n) [] b h = absurd (omega arith)
drop-append (suc n) (x ∷ a) b h = drop-append n a b (omega arith)

-- How one round ends.
pub data Round (t : RoutingTable) (b : Bytes) : Type 0 where
  short : length b < 11 → Round t b
  desync : 11 ≤ length b → parse_message_header b ≡ none → Round t b
  partial :
      (h : ParsedHeaderInfo)
      → parse_message_header b ≡ some h
      → 11 ≤ length b
      → length b < h.total_message_length
      → Round t b
  complete :
      (h : ParsedHeaderInfo)
      → parse_message_header b ≡ some h
      → 11 ≤ h.total_message_length
      → h.total_message_length ≤ length b
      → Round t b

pub round : (t : RoutingTable) (b : Bytes) → Round t b
round t b = elim (Bool-cases (ltb (length b) 11)) [
  | inl e ↦ short (ground arith)
  | inr e ↦ elim (Option-cases (parse_message_header b)) [
    | inl none_e ↦ desync (ground arith) none_e
    | inr (h, some_e) ↦ elim (Bool-cases (leb h.total_message_length (length b))) [
      | inl l ↦ complete h some_e (total_bounds b h some_e).0 (ground arith)
      | inr l ↦ partial h some_e (total_bounds b h some_e).1 (ground arith)
    ]
  ]
]

module _ (t : RoutingTable) (f : ℕ) (b : Bytes) where
  pub drain_short : length b < 11 → drain t (suc f) b ≡ (b, [])
  unfolding drain
  drain_short s = ground arith

  pub drain_desync :
      11 ≤ length b
      → parse_message_header b ≡ none
      → drain t (suc f) b ≡ ([], notify_critical_error header_parsing_failed ∷ [])
  unfolding drain
  drain_desync l e = ground arith

  pub drain_partial :
      (h : ParsedHeaderInfo)
      → parse_message_header b ≡ some h
      → 11 ≤ length b
      → length b < h.total_message_length
      → drain t (suc f) b ≡ (b, [])
  unfolding drain
  drain_partial h e l p = ground arith

  pub drain_complete :
      (h : ParsedHeaderInfo)
      → parse_message_header b ≡ some h
      → 11 ≤ h.total_message_length
      → h.total_message_length ≤ length b
      → drain t (suc f) b ≡ (
        (drain t f (drop h.total_message_length b)).0,
        route t h (take h.total_message_length b) ++ (drain t f (drop h.total_message_length b)).1,
      )
  unfolding drain
  drain_complete h e l p = ground arith

pub drain_fuel :
    (t : RoutingTable) (f g : ℕ) (b : Bytes)
    → length b < f
    → length b < g
    → drain t f b ≡ drain t g b
drain_fuel t zero g b hf hg = absurd (omega arith)
drain_fuel t (suc f) zero b hf hg = absurd (omega arith)
drain_fuel t (suc f) (suc g) b hf hg = elim (round t b) [
  | short s ↦ rw (drain_short t f b s, drain_short t g b s)
  | desync l e ↦ rw (drain_desync t f b l e, drain_desync t g b l e)
  | partial h e l p ↦ rw (drain_partial t f b h e l p, drain_partial t g b h e l p)
  | complete h e l p ↦
      let n = h.total_message_length in
      let same =
        drain_fuel t f g (drop n b) (omega (arith, length-drop n b))
          (omega (arith, length-drop n b)) in
      rw (drain_complete t f b h e l p, drain_complete t g b h e l p, same)
]

pub length-drain : (t : RoutingTable) (f : ℕ) (b : Bytes) → length (drain t f b).0 ≤ length b
length-drain t zero b = unfold drain in omega arith
length-drain t (suc f) b = elim (round t b) [
  | short s ↦ rw (drain_short t f b s) (omega arith)
  | desync l e ↦ rw (drain_desync t f b l e) (omega arith)
  | partial h e l p ↦ rw (drain_partial t f b h e l p) (omega arith)
  | complete h e l p ↦
      let n = h.total_message_length in
      rw (drain_complete t f b h e l p)
        (omega (arith, length-drain t f (drop n b), length-drop n b))
]

-- The call is the delivery of a message, not a report of a bad header.
abbrev pub IsDelivery : Action → Type 0
IsDelivery (enqueue q m) = Unit
IsDelivery _ = ⊥

abbrev pub both : Bytes × List Action → List Action → Bytes × List Action
both r acts = (r.0, acts ++ r.1)

All-right {ℓ κ} : {A : Type ℓ} (P : A → Type κ) (xs ys : List A) → All P (xs ++ ys) → All P ys
All-right P [] ys h = h
All-right P (x ∷ xs) ys (hx, hr) = All-right P xs ys hr

pub drain_append :
    (t : RoutingTable) (f g : ℕ) (a b : Bytes)
    → length a < f
    → length a + length b < g
    → All IsDelivery (drain t f a).1
    → drain t g (a ++ b) ≡ both (drain t g ((drain t f a).0 ++ b)) (drain t f a).1
drain_append t zero g a b hf hg clean = absurd (omega arith)
drain_append t (suc f) zero a b hf hg clean = absurd (omega arith)
drain_append t (suc f) (suc g) a b hf hg clean = elim (round t a) [
  | short s ↦ rw (drain_short t f a s)
  | desync l e ↦ absurd ((rw (drain_desync t f a l e) at clean).0)
  | partial h e l p ↦ rw (drain_partial t f a h e l p)
  | complete h e l p ↦
      let n = h.total_message_length in
      let x = drain t f (drop n a) in
      let first = route t h (take n a) in
      let clean' : All IsDelivery (first ++ x.1) = rw (drain_complete t f a h e l p) at clean in
      let longer : n ≤ length (a ++ b) = omega (arith, length-append a b) in
      let shorter = length-drop n a in
      let ih =
        drain_append t f g (drop n a) b (omega arith) (omega arith)
          (All-right IsDelivery first x.1 clean') in
      let more =
        drain_fuel t g (suc g) (x.0 ++ b)
          (omega (arith, length-append x.0 b, length-drain t f (drop n a)))
          (omega (arith, length-append x.0 b, length-drain t f (drop n a))) in
      rw
        (
          drain_complete t f a h e l p,
          drain_complete t g (a ++ b) h (parse-append a b h e) l longer,
          drop-append n a b p,
          take-append n a b p,
          ih,
          more,
        )
        (rw append_assoc refl)
]
