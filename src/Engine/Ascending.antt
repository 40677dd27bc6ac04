-- ===== src/Engine/Ascending.antt =====
-- Lists of interval numbers in ascending order: the shape of the engine's `hold_idx`.
use netquality.Prelude.{
  ℕ, zero, suc, ◌+◌, ◌-◌, ◌≤◌, ◌<◌, ◌≡◌, refl, ap, ◌∙◌, List, [], ◌∷◌, ◌++◌, arith, length, drop,
  get_or, last_or,
}

-- Strictly ascending, from `lo` on and below `hi`.
abbrev pub Ascending : ℕ → ℕ → List ℕ → Type 0
Ascending lo hi [] = Unit {0}
Ascending lo hi (x ∷ xs) = (lo ≤ x) × (x < hi) × Ascending (suc x) hi xs

pub Ascending-mono :
    (lo : ℕ) {hi hi' : ℕ} (xs : List ℕ) → hi ≤ hi' → Ascending lo hi xs → Ascending lo hi' xs
Ascending-mono lo [] h a = tt
Ascending-mono lo (x ∷ xs) h a = (a.0, omega arith, Ascending-mono (suc x) xs h a.2)

Ascending-lower :
    {lo lo' : ℕ} (hi : ℕ) (xs : List ℕ) → lo ≤ lo' → Ascending lo' hi xs → Ascending lo hi xs
Ascending-lower hi [] h a = tt
Ascending-lower hi (x ∷ xs) h a = (omega arith, a.1, a.2)

pub Ascending-snoc :
    (lo n : ℕ) (xs : List ℕ) → lo ≤ n → Ascending lo n xs → Ascending lo (suc n) (xs ++ n ∷ [])
Ascending-snoc lo n [] h a = (h, omega arith, tt)
Ascending-snoc lo n (x ∷ xs) h a = (a.0, omega arith, Ascending-snoc (suc x) n xs (omega arith) a.2)

pub Ascending-drop : (lo hi n : ℕ) (xs : List ℕ) → Ascending lo hi xs → Ascending lo hi (drop n xs)
Ascending-drop lo hi zero xs a = a
Ascending-drop lo hi (suc n) [] a = tt
Ascending-drop lo hi (suc n) (x ∷ xs) a =
    Ascending-lower hi (drop n xs) (omega arith) (Ascending-drop (suc x) hi n xs a.2)

-- n, n + 1, …, of the given length
count_up : ℕ → ℕ → List ℕ
count_up from zero = []
count_up from (suc n) = from ∷ count_up (suc from) n

last-ge :
    (lo hi x : ℕ) (xs : List ℕ)
    → Ascending lo hi (x ∷ xs)
    → (x + length xs ≤ last_or xs x) × (last_or xs x < hi)
last-ge lo hi x [] a = (omega arith, a.1)
last-ge lo hi x (y ∷ ys) a = let (ge, lt) = last-ge (suc x) hi y ys a.2 in (omega arith, lt)

-- Of n ascending numbers, where the last is n - 1 above the first, none is missing in between.
consecutive :
    (lo hi x : ℕ) (xs : List ℕ)
    → Ascending lo hi (x ∷ xs)
    → last_or xs x ≤ x + length xs
    → xs ≡ count_up (suc x) (length xs)
unfolding count_up
consecutive lo hi x [] a h = refl
consecutive lo hi x (y ∷ ys) a h =
    let ge = (last-ge (suc x) hi y ys a.2).0 in
    let next : y ≡ suc x = omega arith in
    ap (◌∷◌ y) (consecutive (suc x) hi y ys a.2 (omega arith))
    ∙ ap (λ k. k ∷ count_up (suc k) (length ys)) next

-- The range that a window of n consecutive numbers covers.
pub window_range :
    (lo hi n : ℕ) (xs : List ℕ)
    → Ascending lo hi xs
    → length xs ≡ suc n
    → last_or xs 0 - get_or xs 0 0 ≡ n
    → (lo ≤ get_or xs 0 0) × (get_or xs 0 0 + suc n ≤ hi)
window_range lo hi n [] a e h = absurd (omega arith)
window_range lo hi n (x ∷ xs) a e h = let (ge, lt) = last-ge lo hi x xs a in (a.0, omega arith)
