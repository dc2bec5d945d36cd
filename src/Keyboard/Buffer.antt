-- ===== src/Keyboard/Buffer.antt =====
-- core/drivers/keyboard.c: the scan-code buffer is a bounded stack of codes, newest first.
use bomboclaat_os.Base.{
  ℕ, zero, suc, ◌+◌, ◌-◌, ◌%◌, ◌^◌, ◌<◌, ◌≡◌, refl, ap, ap₂, ◌∙◌, false, List, [], ◌∷◌, ◌==◌,
  length, get_or, set, take, drop, map, length-set, get_or-set_self, get_or-set_ne, arith,
}
use bomboclaat_os.Stack.{Stack, max_size, push}
use bomboclaat_os.Stack.Laws.{push_room, push-full, pop_some}
use bomboclaat_os.Keyboard.{Kbd, keyboard_handler, keyboard_read}

-- The counter is `top`, and every buffered word is a byte.
pub record IsValid (k : Kbd) : Type 0 where
  pub sized : length k.data_stack.arr ≡ max_size
  pub counted : k.data_stack.top ≡ k.data_stack_size
  pub inside : k.data_stack_size < max_size

-- `arr[n], arr[n - 1], …, arr[1]`
abbrev pub codes_below : List ℕ → ℕ → List ℕ
codes_below arr zero = []
codes_below arr (suc n) = get_or arr (suc n) 0 ∷ codes_below arr n

-- The buffered codes, newest first.
abbrev pub codes : Kbd → List ℕ
codes k = codes_below k.data_stack.arr k.data_stack_size

codes_below-set :
    (arr : List ℕ) (i v n : ℕ) → n < i → codes_below (set arr i v) n ≡ codes_below arr n
codes_below-set arr i v zero h = refl
codes_below-set arr i v (suc n) h =
    ap₂ ◌∷◌ (get_or-set_ne arr i (suc n) v 0 (λ e. omega arith))
      (codes_below-set arr i v n (omega arith))

handler_lem :
    (scancode : ℕ) (k : Kbd)
    → k.data_stack_size < max_size
    → keyboard_handler scancode k
      ≡ record { data_stack = push k.data_stack scancode; data_stack_size = k.data_stack_size + 1 }
unfolding keyboard_handler
handler_lem scancode k h =
    let e : (k.data_stack_size == max_size) ≡ false = ground arith in
    let w : (k.data_stack_size + 1) % 2 ^ 64 ≡ k.data_stack_size + 1 = omega arith in rw (e, w)

-- While fewer than 1023 codes are buffered, the interrupt handler puts the scan code in front.
pub keyboard_handler-codes :
    (scancode : ℕ) (k : Kbd)
    → IsValid k
    → k.data_stack_size + 1 < max_size
    → IsValid (keyboard_handler scancode k)
      × (codes (keyboard_handler scancode k) ≡ scancode ∷ codes k)
keyboard_handler-codes scancode k v room =
    rw (handler_lem scancode k v.inside, push_room k.data_stack scancode (omega (arith, v.counted)))
      (go k.data_stack.arr k.data_stack.top k.data_stack_size v.sized v.counted room)
  where
    go :
        (arr : List ℕ) (top n : ℕ)
        → length arr ≡ max_size
        → top ≡ n
        → n + 1 < max_size
        → let k' : Kbd = record {
          data_stack = record { arr = set arr (suc top) scancode; top = suc top };
          data_stack_size = n + 1;
        } in
          IsValid k' × (codes k' ≡ scancode ∷ codes_below arr n)
    go arr top n len e room =
        let s : n + 1 ≡ suc n = omega arith in
        let at : suc n ≡ suc top = omega arith in
        let hit =
          ap (λ i. get_or (set arr (suc top) scancode) i 0) at
          ∙ get_or-set_self arr (suc top) scancode 0 (omega arith) in
        (
          record {
            sized = length-set arr (suc top) scancode ∙ len;
            counted = omega arith;
            inside = room;
          },
          rw s (ap₂ ◌∷◌ hit (codes_below-set arr (suc top) scancode n (omega arith))),
        )

-- The 1024th code is counted and not stored: the counter passes `top`.
pub keyboard_handler_drops :
    (scancode : ℕ) (k : Kbd)
    → IsValid k
    → k.data_stack_size + 1 ≡ max_size
    → keyboard_handler scancode k ≡ record k { data_stack_size = max_size }
keyboard_handler_drops scancode k v last =
    handler_lem scancode k v.inside
    ∙ rw (push-full k.data_stack scancode (omega (arith, v.counted)), last)

IsValid-pop :
    (arr : List ℕ) (top n : ℕ)
    → length arr ≡ max_size
    → top ≡ suc n
    → suc n < max_size
    → IsValid (record {
      data_stack = record { arr = arr; top = (top + 2 ^ 64 - 1) % 2 ^ 64 };
      data_stack_size = n;
    })
IsValid-pop arr top n len e lt = record { sized = len; counted = omega arith; inside = omega arith }

-- keyboard_read returns the newest codes, newest first, as many as asked for and there are, and
-- leaves the others.
pub keyboard_read-codes :
    (size : ℕ) (k : Kbd)
    → IsValid k
    → let (bytes, k') = keyboard_read size k in
      (bytes ≡ map (λ c. c % 256) (take size (codes k)))
      × (codes k' ≡ drop size (codes k))
      × IsValid k'
unfolding keyboard_read
keyboard_read-codes zero k v = (refl, refl, v)
keyboard_read-codes (suc size) k v = go k.data_stack k.data_stack_size v (keyboard_read-codes size)
  where
    go :
        (s : Stack) (n : ℕ)
        → IsValid (record { data_stack = s; data_stack_size = n })
        → ((k : Kbd)
            → IsValid k
            → let (bytes, k') = keyboard_read size k in
              (bytes ≡ map (λ c. c % 256) (take size (codes k)))
              × (codes k' ≡ drop size (codes k))
              × IsValid k')
        → let k : Kbd = record { data_stack = s; data_stack_size = n } in
          let (bytes, k') = keyboard_read (suc size) k in
          (bytes ≡ map (λ c. c % 256) (take (suc size) (codes k)))
          × (codes k' ≡ drop (suc size) (codes k))
          × IsValid k'
    go s zero v ih = (refl, refl, v)
    go s (suc n) v ih =
        let p = pop_some s (omega (arith, v.counted, v.inside)) in
        let m : suc n - 1 ≡ n = omega arith in
        let w = IsValid-pop s.arr s.top n v.sized v.counted v.inside in
        let (bytes, left, valid) = ih _ w in
        let some : (suc n == 0) ≡ false = ground arith in
        let newest = ap (λ i. get_or s.arr i 0 % 256) v.counted in
        rw (p, m, some) (ap₂ ◌∷◌ newest bytes, left, valid)
