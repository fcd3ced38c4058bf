-- ===== src/Track/Acktr/Order.antt =====
-- The entries of `ngtcp2_acktr`: in decreasing order, each number once.
use ngtcp.Base.{
  ltb, ◌==◌, if◌then◌else◌, Bool-cases, length, proto, ok, err, ℕ, ◌+◌, ◌≤◌, ◌<◌, ◌≡◌, refl, ap,
  inl, inr, Bool, true, false, ◌||◌, List, [], ◌∷◌, ◌++◌, arith,
}
use ngtcp.Track.Acktr.{AcktrEntry, Acktr, add_entry}

-- All entries have a number below `n`.
abbrev pub Below : ℕ → List AcktrEntry → Type 0
Below n [] = Unit {0}
Below n (e ∷ ents) = (e.pkt_num < n) × Below n ents

abbrev pub IsDecreasing : List AcktrEntry → Type 0
IsDecreasing [] = Unit {0}
IsDecreasing (e ∷ ents) = Below e.pkt_num ents × IsDecreasing ents

pub record IsAcktr (acktr : Acktr) : Type 0 where
  pub ordered : IsDecreasing acktr.ent
  pub counted : acktr.nack ≡ length acktr.ent
  pub few : acktr.nack ≤ 1024

-- The entries that pass a test of their number, in order.
unfoldable pub keep : (ℕ → Bool) → List AcktrEntry → List AcktrEntry
keep f [] = []
keep f (e ∷ ents) = let rest = keep f ents in if f e.pkt_num then e ∷ rest else rest

pub has_pkt_num : ℕ → List AcktrEntry → Bool
has_pkt_num n [] = false
has_pkt_num n (e ∷ ents) = e.pkt_num == n || has_pkt_num n ents

pub Below-le : (m n : ℕ) (ents : List AcktrEntry) → m ≤ n → Below m ents → Below n ents
Below-le m n [] le h = tt
Below-le m n (e ∷ ents) le h = (omega (arith, h.0), Below-le m n ents le h.1)

-- Tests that agree below `n` keep the same entries below `n`.
pub keep-Below :
    (n : ℕ) (f g : ℕ → Bool) (ents : List AcktrEntry)
    → ((m : ℕ) → m < n → f m ≡ g m)
    → Below n ents
    → keep f ents ≡ keep g ents
unfolding keep
keep-Below n f g [] e h = refl
keep-Below n f g (x ∷ ents) e h = rw (e x.pkt_num h.0, keep-Below n f g ents e h.1) refl

pub keep-all : (ents : List AcktrEntry) → keep (λ m. true) ents ≡ ents
unfolding keep
keep-all [] = refl
keep-all (x ∷ ents) = ap (λ t. x ∷ t) (keep-all ents)

pub keep-none : (ents : List AcktrEntry) → keep (λ m. false) ents ≡ []
unfolding keep
keep-none [] = refl
keep-none (x ∷ ents) = keep-none ents

pub has-Below :
    (n m : ℕ) (ents : List AcktrEntry) → n ≤ m → Below n ents → has_pkt_num m ents ≡ false
unfolding has_pkt_num
has-Below n m [] le h = refl
has-Below n m (x ∷ ents) le h = ground (arith, has-Below n m ents le h.1, h.0)

-- The place of a new number.
unfoldable pub inserted : AcktrEntry → List AcktrEntry → List AcktrEntry
inserted ent ents = keep (λ n. ltb ent.pkt_num n) ents ++ (ent ∷ keep (λ n. ltb n ent.pkt_num) ents)

pub add_entry_lem :
    (ent : AcktrEntry) (ents : List AcktrEntry)
    → IsDecreasing ents
    → add_entry ent ents
      ≡ (if has_pkt_num ent.pkt_num ents then (ents, err proto) else (inserted ent ents, ok tt))
unfolding add_entry has_pkt_num inserted keep
add_entry_lem ent [] d = refl
add_entry_lem ent (x ∷ ents) d = elim (Bool-cases (ltb ent.pkt_num x.pkt_num)) [
  | inl a ↦
      let b : (x.pkt_num == ent.pkt_num) ≡ false = ground arith in
      let c : ltb x.pkt_num ent.pkt_num ≡ false = ground arith in
      rw (a, b, c, add_entry_lem ent ents d.1) (ground arith)
  | inr a ↦ elim (Bool-cases (x.pkt_num == ent.pkt_num)) [
    | inl b ↦ rw (a, b) refl
    | inr b ↦
        let c : ltb x.pkt_num ent.pkt_num ≡ true = ground arith in
        rw
          (
            a,
            b,
            c,
            has-Below x.pkt_num ent.pkt_num ents (ground arith) d.0,
            keep-Below x.pkt_num (λ n. ltb ent.pkt_num n) (λ n. false) ents (λ n h. ground arith)
                d.0,
            keep-none ents,
            keep-Below x.pkt_num (λ n. ltb n ent.pkt_num) (λ n. true) ents (λ n h. ground arith)
                d.0,
            keep-all ents,
          )
          refl
  ]
]

Below-inserted :
    (n : ℕ) (ent : AcktrEntry) (ents : List AcktrEntry)
    → ent.pkt_num < n
    → Below n ents
    → Below n (add_entry ent ents).0
unfolding add_entry
Below-inserted n ent [] lt h = (lt, tt)
Below-inserted n ent (x ∷ ents) lt h =
    let ih = Below-inserted n ent ents lt h.1 in ground (arith, ih, h.0, h.1, lt)

-- The list stays in order, and an insertion adds one entry.
pub add_entry-IsDecreasing :
    (ent : AcktrEntry) (ents : List AcktrEntry)
    → IsDecreasing ents
    → IsDecreasing (add_entry ent ents).0
      × ((add_entry ent ents).1 ≡ ok tt → length (add_entry ent ents).0 ≡ length ents + 1)
unfolding add_entry
add_entry-IsDecreasing ent [] d = ((tt, tt), λ e. refl)
add_entry-IsDecreasing ent (x ∷ ents) d = ground (
  arith,
  add_entry-IsDecreasing ent ents d.1,
  Below-inserted x.pkt_num ent ents,
  Below-le x.pkt_num ent.pkt_num ents,
  d.0,
  d.1,
)
