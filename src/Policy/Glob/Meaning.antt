-- ===== src/Policy/Glob/Meaning.antt =====
-- What it means for a name to match a segment pattern, with no search order in it: `*` stands for
-- any run of bytes, `?` for one byte, and every other byte for itself.
use agent_dispatch.Base.{ℕ, Str, true, ◌≡◌, ◌≢◌, ◌⊎◌, inl, inr, refl, [], ◌∷◌, arith}
use agent_dispatch.Policy.Glob.{star, question, only_stars}

pub data Matches : Str → Str → Type 0 where
  empty : Matches [] []
  byte :
      {a c : ℕ} {p s : Str}
      → (a ≡ question) ⊎ ((a ≢ star) × (a ≡ c))
      → Matches p s
      → Matches (a ∷ p) (c ∷ s)
  skip : {a : ℕ} {p s : Str} → a ≡ star → Matches p s → Matches (a ∷ p) s
  eat : {a c : ℕ} {p s : Str} → a ≡ star → Matches (a ∷ p) s → Matches (a ∷ p) (c ∷ s)

-- Inversions.
pub byte_inv :
    {a c : ℕ} {p s : Str}
    → Matches (a ∷ p) (c ∷ s)
    → a ≢ star
    → ((a ≡ question) ⊎ (a ≡ c)) × Matches p s
byte_inv (byte (inl e) d) n = (inl e, d)
byte_inv (byte (inr e) d) n = (inr e.1, d)
byte_inv (skip e d) n = absurd (n e)
byte_inv (eat e d) n = absurd (n e)

pub at_end : {a : ℕ} {p : Str} → a ≡ star → Matches (a ∷ p) [] → Matches p []
at_end e (skip _ d) = d

pub must_eat :
    {a c : ℕ} {p s : Str}
    → a ≡ star
    → Matches (a ∷ p) (c ∷ s)
    → ¬ Matches p (c ∷ s)
    → Matches (a ∷ p) s
must_eat e (byte (inl q) d) n = absurd (omega arith)
must_eat e (byte (inr q) d) n = absurd (q.0 e)
must_eat e (skip _ d) n = absurd (n d)
must_eat e (eat _ d) n = d

pub one_star :
    {a b : ℕ} {p s : Str} → a ≡ star → b ≡ star → Matches (a ∷ b ∷ p) s → Matches (b ∷ p) s
one_star e e' (byte (inl q) d) = absurd (omega arith)
one_star e e' (byte (inr q) d) = absurd (q.0 e)
one_star e e' (skip _ d) = d
one_star e e' (eat _ d) = eat e' (one_star e e' d)

no_end : {b : ℕ} {p : Str} → b ≢ star → Matches (b ∷ p) [] → ⊥
no_end n (skip e d) = n e

-- Wherever a byte pattern `b` is first found after a star, the rest may start right there.
pub after_byte :
    {a b c : ℕ} {p : Str} (s : Str)
    → a ≡ star
    → b ≢ star
    → Matches (a ∷ b ∷ p) (c ∷ s)
    → Matches (a ∷ p) s
after_byte s e n (byte (inl q) d) = absurd (omega arith)
after_byte s e n (byte (inr q) d) = absurd (q.0 e)
after_byte s e n (skip _ d) = skip e (byte_inv d n).1
after_byte [] e n (eat _ (skip _ d)) = absurd (no_end n d)
after_byte (c ∷ s) e n (eat _ d) = eat e (after_byte s e n d)

pub only_stars→Matches : (p : Str) → only_stars p ≡ true → Matches p []
unfolding only_stars
only_stars→Matches [] h = empty
only_stars→Matches (a ∷ p) h = skip (ground arith) (only_stars→Matches p (ground arith))

pub Matches→only_stars : {p : Str} → Matches p [] → only_stars p ≡ true
unfolding only_stars
Matches→only_stars empty = refl
Matches→only_stars (skip e d) = ground (arith, Matches→only_stars d)
