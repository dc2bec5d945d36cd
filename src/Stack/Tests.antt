-- ===== src/Stack/Tests.antt =====
-- core/memory/stack.c: a stack of two words.
use bomboclaat_os.Base.{ℕ, ◌≡◌, refl, ◌∷◌, replicate, length-replicate, arith}
use bomboclaat_os.Stack.{Stack, push, pop, top}
use bomboclaat_os.Stack.Laws.{IsValid}

abbrev two_words : Stack
two_words = record { arr = 0 ∷ 7 ∷ 9 ∷ replicate 1021 0; top = 2 }

two_words-IsValid : IsValid two_words
two_words-IsValid = record {
  sized = omega (arith, length-replicate 1021 (let b : ℕ = 0 in b));
  inside = omega arith;
}

push_then_top : (top (push two_words 5) ≡ 5) × ((pop two_words).0 ≡ 9)
unfolding push pop top
push_then_top = (refl, refl)
