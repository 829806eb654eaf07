-- ===== src/Policy/Rows/Loops.antt =====
-- What the loops over the row leave in it.
use agent_dispatch.Base.{
  ℕ, zero, suc, ◌+◌, ◌≤◌, ◌<◌, Str, length, get_or, set, length-set, get_or-set_self, get_or-set_ne,
  Bool, true, false, ◌&&◌, ◌||◌, ◌≡◌, ◌≢◌, ◌⊎◌, ◌↔◌, inl, inr, refl, List, [], arith, sym, ◌∙◌,
}
use native.Mathlib.Decide.{ℕ_discrete}
use agent_dispatch.Policy.Glob.{match_segment}
use agent_dispatch.Policy.Rows.{Row, recursive_loop, ordinary_loop, prefix_loop}

-- `dp[j]` is true.

abbrev pub At : Row → ℕ → Type 0
At dp j = get_or dp j false ≡ true

pub length-recursive_loop :
    (k j : ℕ) (seen : Bool) (dp : Row) → length (recursive_loop k j seen dp) ≡ length dp
unfolding recursive_loop
length-recursive_loop zero j seen dp = refl
length-recursive_loop (suc k) j seen dp =
    length-recursive_loop k (suc j) (seen || get_or dp j false)
      (set dp j (seen || get_or dp j false))
    ∙ length-set dp j (seen || get_or dp j false)

recursive_loop-below :
    (k j i : ℕ) (seen : Bool) (dp : Row)
    → i < j
    → get_or (recursive_loop k j seen dp) i false ≡ get_or dp i false
unfolding recursive_loop
recursive_loop-below zero j i seen dp h = refl
recursive_loop-below (suc k) j i seen dp h =
    let v = seen || get_or dp j false in
    recursive_loop-below k (suc j) i v (set dp j v) (omega arith)
    ∙ get_or-set_ne dp j i v false (λ e. omega arith)

-- The first row entries from `j` on that are true, up to `i`.
abbrev pub Earlier : ℕ → ℕ → Row → Type 0
Earlier j i dp = (t : ℕ) × (j ≤ t) × (t ≤ i) × At dp t

or_inv : (a b : Bool) → (a || b) ≡ true → (a ≡ true) ⊎ (b ≡ true)
or_inv true b h = inl refl
or_inv false b h = inr h

At-set : (dp : Row) (j t : ℕ) (v : Bool) → j ≢ t → At dp t ↔ At (set dp j v) t
At-set dp j t v n = let e = get_or-set_ne dp j t v false n in (λ h. e ∙ h, λ h. sym e ∙ h)

module _ (k j i : ℕ) (seen : Bool) (dp : Row) (inside : j < length dp) where
  fresh : Bool
  fresh = seen || get_or dp j false

  from_here :
      j ≡ i
      → At (recursive_loop k (suc j) fresh (set dp j fresh)) i ↔ ((seen ≡ true) ⊎ Earlier j i dp)
  unfolding fresh
  from_here e =
      let here : get_or (recursive_loop k (suc j) fresh (set dp j fresh)) i false ≡ fresh =
        recursive_loop-below k (suc j) i fresh (set dp j fresh) (omega arith)
        ∙ rw (← e) (get_or-set_self dp j fresh false inside) in
      (λ h. forth (sym here ∙ h), λ h. here ∙ back h)
    where
      forth : fresh ≡ true → (seen ≡ true) ⊎ Earlier j i dp
      forth h = elim (or_inv seen (get_or dp j false) h) [
        | inl s ↦ inl s
        | inr d ↦ inr (j, omega arith, omega arith, d)
      ]

      back : (seen ≡ true) ⊎ Earlier j i dp → fresh ≡ true
      back (inl s) = ground arith
      back (inr (t, lo, hi, d)) = let q : t ≡ j = omega arith in let r = rw q at d in ground arith

  from_later :
      j ≢ i
      → j ≤ i
      → At (recursive_loop k (suc j) fresh (set dp j fresh)) i
        ↔ ((fresh ≡ true) ⊎ Earlier (suc j) i (set dp j fresh))
      → At (recursive_loop k (suc j) fresh (set dp j fresh)) i ↔ ((seen ≡ true) ⊎ Earlier j i dp)
  unfolding fresh
  from_later n lo ih = (λ h. forth (ih.0 h), λ h. ih.1 (back h))
    where
      forth : (fresh ≡ true) ⊎ Earlier (suc j) i (set dp j fresh) → (seen ≡ true) ⊎ Earlier j i dp
      forth (inl f) = elim (or_inv seen (get_or dp j false) f) [
        | inl s ↦ inl s
        | inr d ↦ inr (j, omega arith, omega arith, d)
      ]
      forth (inr (t, lt, hi, d)) =
          inr (t, omega arith, hi, (At-set dp j t fresh (λ e. omega arith)).1 d)

      back : (seen ≡ true) ⊎ Earlier j i dp → (fresh ≡ true) ⊎ Earlier (suc j) i (set dp j fresh)
      back (inl s) = inl (ground arith)
      back (inr (t, lt, hi, d)) = elim (ℕ_discrete j t) [
        | yes e ↦ inl (let r = rw (← e) at d in ground arith)
        | no m ↦ inr (t, omega arith, hi, (At-set dp j t fresh m).0 d)
      ]

pub recursive_loop-from :
    (k j i : ℕ) (seen : Bool) (dp : Row)
    → length dp ≡ j + k
    → j ≤ i
    → i < j + k
    → At (recursive_loop k j seen dp) i ↔ ((seen ≡ true) ⊎ Earlier j i dp)
unfolding recursive_loop fresh
recursive_loop-from zero j i seen dp len lo hi = absurd (omega arith)
recursive_loop-from (suc k) j i seen dp len lo hi = elim (ℕ_discrete j i) [
  | yes e ↦ from_here k j i seen dp (omega arith) e
  | no n ↦ from_later k j i seen dp (omega arith) n lo (
      recursive_loop-from k (suc j) i (seen || get_or dp j false)
        (set dp j (seen || get_or dp j false))
        (length-set dp j (seen || get_or dp j false) ∙ omega arith) (omega arith) (omega arith))
]

pub length-ordinary_loop :
    (j : ℕ) (text : Str) (names : List Str) (dp : Row)
    → length (ordinary_loop j text names dp) ≡ length dp
unfolding ordinary_loop
length-ordinary_loop zero text names dp = refl
length-ordinary_loop (suc j) text names dp =
    let v = get_or dp j false && match_segment text (get_or names j []) in
    length-ordinary_loop j text names (set dp (suc j) v) ∙ length-set dp (suc j) v

ordinary_loop-above :
    (j i : ℕ) (text : Str) (names : List Str) (dp : Row)
    → j < i
    → get_or (ordinary_loop j text names dp) i false ≡ get_or dp i false
unfolding ordinary_loop
ordinary_loop-above zero i text names dp h = refl
ordinary_loop-above (suc j) i text names dp h =
    let v = get_or dp j false && match_segment text (get_or names j []) in
    ordinary_loop-above j i text names (set dp (suc j) v) (omega arith)
    ∙ get_or-set_ne dp (suc j) i v false (λ e. omega arith)

-- Each entry is computed from the old one to its left.
pub ordinary_loop-at :
    (j i : ℕ) (text : Str) (names : List Str) (dp : Row)
    → i < j
    → j < length dp
    → get_or (ordinary_loop j text names dp) (suc i) false
      ≡ (get_or dp i false && match_segment text (get_or names i []))
unfolding ordinary_loop
ordinary_loop-at zero i text names dp h k = elim h [ ]
ordinary_loop-at (suc j) i text names dp h k =
    let v = get_or dp j false && match_segment text (get_or names j []) in
    elim (ℕ_discrete j i) [
      | yes e ↦
          ordinary_loop-above j (suc i) text names (set dp (suc j) v) (omega arith)
          ∙ rw (← e) (get_or-set_self dp (suc j) v false (omega arith))
      | no n ↦
          let step : get_or (set dp (suc j) v) i false ≡ get_or dp i false =
            get_or-set_ne dp (suc j) i v false (λ e. omega arith) in
          ordinary_loop-at j i text names (set dp (suc j) v) (omega arith)
            (rw (length-set dp (suc j) v) (omega arith))
          ∙ rw step
    ]

-- An entry from `j` on, among `k` of them, is true.
abbrev pub Somewhere : ℕ → ℕ → Row → Type 0
Somewhere k j dp = (t : ℕ) × (j ≤ t) × (t < j + k) × At dp t

prefix_loop→ : (k j : ℕ) (dp : Row) → prefix_loop k j dp ≡ true → Somewhere k j dp
unfolding prefix_loop
prefix_loop→ zero j dp h = absurd (cc)
prefix_loop→ (suc k) j dp h = elim (or_inv (get_or dp j false) (prefix_loop k (suc j) dp) h) [
  | inl d ↦ (j, omega arith, omega arith, d)
  | inr r ↦ let (t, lo, hi, d) = prefix_loop→ k (suc j) dp r in (t, omega arith, omega arith, d)
]

→prefix_loop : (k j : ℕ) (dp : Row) → Somewhere k j dp → prefix_loop k j dp ≡ true
unfolding prefix_loop
→prefix_loop zero j dp (t, lo, hi, d) = absurd (omega arith)
→prefix_loop (suc k) j dp (t, lo, hi, d) = elim (ℕ_discrete j t) [
  | yes e ↦ let r = rw (← e) at d in ground arith
  | no n ↦ ground (arith, →prefix_loop k (suc j) dp (t, omega arith, omega arith, d))
]

pub prefix_loop_iff : (k j : ℕ) (dp : Row) → (prefix_loop k j dp ≡ true) ↔ Somewhere k j dp
prefix_loop_iff k j dp = (prefix_loop→ k j dp, →prefix_loop k j dp)
