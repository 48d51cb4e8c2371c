-- ===== src/Bounded/Queue.antt =====
-- The buffer as the list of its values, the oldest first.
use ostep_code.Prelude.{
  ℕ, zero, suc, ◌+◌, ◌≡◌, refl, ℤ, pos, negsuc, List, [], ◌∷◌, ◌++◌, length, arith,
}
use ostep_code.Bounded.{Ops}

abbrev pub get_first : List ℤ → List ℤ × ℤ
get_first [] = ([], pos 0)
get_first (x ∷ xs) = (xs, x)

abbrev pub queue : Ops (List ℤ)
queue = record { num_full = length; do_fill = λ xs v. xs ++ v ∷ []; do_get = get_first }

-- The markers among the values.
abbrev pub is_marker : ℤ → ℕ
is_marker (pos n) = 0
is_marker (negsuc zero) = 1
is_marker (negsuc (suc n)) = 0

pub markers : List ℤ → ℕ
markers [] = 0
markers (x ∷ xs) = is_marker x + markers xs

pub markers_snoc : (xs : List ℤ) (v : ℤ) → markers (xs ++ v ∷ []) ≡ markers xs + is_marker v
unfolding markers
markers_snoc [] v = omega arith
markers_snoc (x ∷ xs) v = omega (arith, markers_snoc xs v)

pub markers_nil : markers [] ≡ 0
unfolding markers
markers_nil = refl

pub markers_cons : (x : ℤ) (xs : List ℤ) → markers (x ∷ xs) ≡ is_marker x + markers xs
unfolding markers
markers_cons x xs = refl
