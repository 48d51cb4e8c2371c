-- ===== src/PersistentStack.antt =====
-- file-intro/pstack.c: a stack of ints in a mapped file, which the program's arguments work on.
pub mod Laws
mod Tests
use ostep_code.Prelude.{
  ℕ, ◌+◌, ◌-◌, ◌*◌, ◌%◌, ◌^◌, ltb, leb, ◌==◌, ◌&&◌, Bool, Option, none, some, if◌then◌else◌, ite,
  ℕ_discrete, ℤ, List, [], ◌∷◌,
}

-- `sizeof(pstack_t)`, which is that of the `size_t` before the array, and `sizeof(int)`.
abbrev pub header_size : ℕ
header_size = 8

abbrev pub int_size : ℕ
int_size = 4

-- The mapped file: the number of items, the array behind it, and `file_size`.
pub record File : Type 0 where
  pub n : ℕ
  pub stack : ℕ → ℤ
  pub file_size : ℕ

-- An argument: "pop", or any other, with what `atoi` makes of it.
pub data Arg : Type 0 where
  pop : Arg
  push : ℤ → Arg

-- The assertion on the size of the file.
abbrev pub size_ok : File → Bool
size_ok p = leb header_size p.file_size && (p.file_size % int_size == 0)

-- `sizeof(pstack_t) + (1 + p->n) * sizeof(int)`, a `size_t` of 64 bits.
abbrev pub size_after : ℕ → ℕ
size_after n = (header_size + (1 + n) % 2 ^ 64 * int_size) % 2 ^ 64

abbrev pub store : (ℕ → ℤ) → ℕ → ℤ → ℕ → ℤ
store f i v j = ite (ℕ_discrete i j) v (f j)

-- The body of the loop: the file, and what is printed.
unfoldable pub step : File → Arg → File × Option ℤ
step p pop =
    if ltb 0 p.n then (let n = p.n - 1 in (record p { n = n }, some (p.stack n))) else (p, none)
step p (push v) =
    if leb (size_after p.n) p.file_size
    then (record p { n = (p.n + 1) % 2 ^ 64; stack = store p.stack p.n v }, none)
    else (p, none)

abbrev pub print : Option ℤ → List ℤ → List ℤ
print none out = out
print (some v) out = v ∷ out

-- `main` for the arguments: the file at the end, and what is printed.
unfoldable pub main : File → List Arg → File × List ℤ
main p [] = (p, [])
main p (a ∷ args) = let r = step p a in let rest = main r.0 args in (rest.0, print r.1 rest.1)
