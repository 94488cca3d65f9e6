-- ===== src/Kbd/Ring.antt =====
-- The ring buffer of src/kbd.c as a first-in first-out queue of at most 255 characters.
use cool_os.Prelude.{
  ℕ, zero, suc, ◌+◌, ◌-◌, ◌%◌, ◌<◌, ◌≡◌, refl, ◌≢◌, ap, ap₂, ◌∙◌, Option, none, some, List, [], ◌∷◌,
  ◌++◌, arith, ◌==◌, if◌then◌else◌, length, get_or, set, length-set, Bool-cases, inl, inr,
  get_or-set_self, get_or-set_ne,
}
use cool_os.Kbd.{Kbd, kbd_buffer_size, put_char, getc_nonblock}

-- Both indices and the array are in range.
pub record IsValid (k : Kbd) : Type 0 where
  pub size : length k.buffer ≡ kbd_buffer_size
  pub head_in : k.head < kbd_buffer_size
  pub tail_in : k.tail < kbd_buffer_size

-- The `n` characters from index `t` on, round the array.
pub stored : List ℕ → ℕ → ℕ → List ℕ
stored buf t zero = []
stored buf t (suc n) = get_or buf t 0 ∷ stored buf ((t + 1) % kbd_buffer_size) n

abbrev pub used : Kbd → ℕ
used k = (k.head + kbd_buffer_size - k.tail) % kbd_buffer_size

unfoldable pub contents : Kbd → List ℕ
unfolding stored
contents k = stored k.buffer k.tail (used k)

-- The bounded queue: a character 0 is none, and one that finds no room is lost.
unfoldable pub offer : List ℕ → ℕ → List ℕ
offer q c = if c == 0 then q else if length q == 255 then q else q ++ (c ∷ [])

unfoldable pub poll : List ℕ → Option ℕ × List ℕ
poll [] = (none, [])
poll (c ∷ q) = (some c, q)

length-stored : (buf : List ℕ) (t n : ℕ) → length (stored buf t n) ≡ n
unfolding stored
length-stored buf t zero = refl
length-stored buf t (suc n) = ap suc (length-stored buf ((t + 1) % kbd_buffer_size) n)

pub length-contents : (k : Kbd) → length (contents k) ≡ used k
unfolding contents
length-contents k = length-stored k.buffer k.tail (used k)

stored-set :
    (buf : List ℕ) (c t n i : ℕ)
    → length buf ≡ kbd_buffer_size
    → t < kbd_buffer_size
    → n < kbd_buffer_size
    → i ≡ (t + n) % kbd_buffer_size
    → stored (set buf i c) t (suc n) ≡ stored buf t n ++ (c ∷ [])
unfolding stored
stored-set buf c t zero i size ht hn e =
    let e' : i ≡ t = omega arith in rw (e', get_or-set_self buf t c 0 (omega arith))
stored-set buf c t (suc n) i size ht hn e = ap₂ ◌∷◌ (get_or-set_ne buf i t c 0 (omega arith)) (
    stored-set buf c ((t + 1) % kbd_buffer_size) n i size (omega arith) (omega arith) (omega arith))

stored-pos :
    (buf : List ℕ) (t n : ℕ)
    → n ≢ 0
    → stored buf t n ≡ get_or buf t 0 ∷ stored buf ((t + 1) % kbd_buffer_size) (n - 1)
unfolding stored
stored-pos buf t zero h = absurd (h refl)
stored-pos buf t (suc n) h = ap (λ m. stored buf t (suc m)) (omega arith)

pub put_char-IsValid : {k : Kbd} (c : ℕ) → IsValid k → IsValid (put_char k c)
unfolding put_char
put_char-IsValid {k} c v = ground (arith, length-set k.buffer k.head c)

pub getc_nonblock-IsValid : {k : Kbd} → IsValid k → IsValid (getc_nonblock k).1
unfolding getc_nonblock
getc_nonblock-IsValid v = ground arith

stored-grow :
    {k : Kbd} (c : ℕ)
    → IsValid k
    → (k.head + 1) % kbd_buffer_size ≢ k.tail
    → let head' = (k.head + 1) % kbd_buffer_size in
      stored (set k.buffer k.head c) k.tail ((head' + kbd_buffer_size - k.tail) % kbd_buffer_size)
      ≡ stored k.buffer k.tail (used k) ++ (c ∷ [])
stored-grow {k} c v room =
    let grown : ((k.head + 1) % kbd_buffer_size + kbd_buffer_size - k.tail) % kbd_buffer_size
        ≡ suc (used k) =
      omega arith in
    rw grown
      (stored-set k.buffer c k.tail (used k) k.head v.size v.tail_in (omega arith) (omega arith))

-- The handler's store is the queue's `offer`.
pub contents-put_char :
    {k : Kbd} (c : ℕ) → IsValid k → contents (put_char k c) ≡ offer (contents k) c
unfolding put_char contents offer
contents-put_char {k} c v =
    ground (arith, length-stored k.buffer k.tail (used k), stored-grow {k = k} c)

stored-shrink :
    {k : Kbd}
    → IsValid k
    → k.head ≢ k.tail
    → let tail' = (k.tail + 1) % kbd_buffer_size in
      stored k.buffer k.tail (used k)
      ≡ get_or k.buffer k.tail 0
        ∷ stored k.buffer tail' ((k.head + kbd_buffer_size - tail') % kbd_buffer_size)
stored-shrink {k} v some_left =
    let fewer : used k - 1
        ≡ (k.head + kbd_buffer_size - (k.tail + 1) % kbd_buffer_size) % kbd_buffer_size =
      omega arith in
    stored-pos k.buffer k.tail (used k) (omega arith)
    ∙ ap (λ n. get_or k.buffer k.tail 0 ∷ stored k.buffer ((k.tail + 1) % kbd_buffer_size) n) fewer

-- The reader's take is the queue's `poll`.
pub getc_nonblock_refines :
    {k : Kbd} → IsValid k → ((getc_nonblock k).0, contents (getc_nonblock k).1) ≡ poll (contents k)
unfolding getc_nonblock contents poll stored
getc_nonblock_refines {k} v = elim (Bool-cases (k.head == k.tail)) [
  | inl e ↦ let none_left : used k ≡ 0 = ground arith in rw (e, none_left)
  | inr e ↦ rw (e, stored-shrink v (ground arith))
]
