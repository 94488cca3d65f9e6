-- ===== src/Console.antt =====
-- The text console, src/console.c, over the buffers of src/framebuffer.c. A buffer is the pixel of 32 bits at
-- each offset in bytes. The font is an argument: the byte of each row of each glyph.
pub mod Pixels
pub mod Draw
pub mod Scroll
pub mod Terminal
pub mod Paint
pub mod Shows
pub mod Present
pub mod Screen
pub mod Start
mod Tests
use cool_os.Prelude.{
  ℕ, zero, suc, ◌+◌, ◌-◌, ◌*◌, ◌/◌, ◌%◌, ◌^◌, Bool, true, false, not, ◌&&◌, ◌||◌, List, [], ◌∷◌,
  ltb, leb, ◌==◌, if◌then◌else◌,
}

abbrev pub Buffer : Type 0
Buffer = ℕ → ℕ

unfoldable pub store32 : ℕ → ℕ → Buffer → Buffer
store32 offset v b q = if q == offset then v else b q

-- Two pixels at once.
abbrev pub store64 : ℕ → ℕ → ℕ → Buffer → Buffer
store64 offset low high b = store32 (offset + 4) high (store32 offset low b)

-- `framebuffer_t`, in so far as it is used; `has_back` tells that `kmalloc` gave a back buffer.
pub record Fb : Type 0 where
  pub front : Buffer
  pub hw_pitch : ℕ
  pub render_width : ℕ
  pub render_height : ℕ
  pub has_back : Bool
  pub back : Buffer
  pub back_pitch : ℕ

-- The buffer that is drawn to, and its pitch.
abbrev pub target : Fb → Buffer
target fb = if fb.has_back then fb.back else fb.front

abbrev pub pitch : Fb → ℕ
pitch fb = if fb.has_back then fb.back_pitch else fb.hw_pitch

abbrev pub drawn : Buffer → Fb → Fb
drawn b fb = record fb {
  front = if fb.has_back then fb.front else b;
  back = if fb.has_back then b else fb.back;
}

-- The static variables. The flags `initialized` of both files are taken as set.
pub record Console : Type 0 where
  pub cursor_x : ℕ
  pub cursor_y : ℕ
  pub cols : ℕ
  pub rows : ℕ
  pub fg_color : ℕ
  pub bg_color : ℕ
  pub fb : Fb

abbrev pub font_width : ℕ
font_width = 8

abbrev pub font_height : ℕ
font_height = 16

-- The pixel of a row of a glyph: bits & (0x80 >> col).
abbrev pub is_ink : ℕ → ℕ → Bool
is_ink bits col = (bits / 2 ^ (7 - col)) % 2 == 1

-- The pixels of a row from `col` on, with `n` to go; `base` is the offset of the row.
unfoldable pub draw_cols : ℕ → ℕ → ℕ → ℕ → ℕ → ℕ → ℕ → Buffer → Buffer
draw_cols zero bits fg bg base px col b = b
draw_cols (suc n) bits fg bg base px col b =
    draw_cols n bits fg bg base px (col + 1)
      (store32 (base + (px + col) * 4) (if is_ink bits col then fg else bg) b)

-- The rows of a glyph from `row` on.
unfoldable pub draw_rows : ℕ → (ℕ → ℕ) → ℕ → ℕ → ℕ → ℕ → ℕ → ℕ → Buffer → Buffer
draw_rows zero glyph fg bg pitch px py row b = b
draw_rows (suc n) glyph fg bg pitch px py row b =
    draw_rows n glyph fg bg pitch px py (row + 1)
      (draw_cols font_width (glyph row) fg bg (((py + row) * pitch) % 2 ^ 32) px 0 b)

-- `console_draw_char`.
unfoldable pub draw_char : (ℕ → ℕ → ℕ) → ℕ → ℕ → ℕ → Console → Console
draw_char font cx cy c k = record k {
  fb =
      drawn
        (draw_rows font_height (font c) k.fg_color k.bg_color (pitch k.fb) (cx * font_width)
          (cy * font_height) 0 (target k.fb))
        k.fb;
}

-- The forward loop of `memmove` over words of 64 bits, from the `i`th on.
unfoldable pub copy_forward : ℕ → ℕ → ℕ → ℕ → Buffer → Buffer
copy_forward zero dst src i b = b
copy_forward (suc n) dst src i b =
    copy_forward n dst src (i + 1) (store64 (dst + i * 8) (b (src + i * 8)) (b (src + i * 8 + 4)) b)

-- `memmove` to a lower address. The last n % 8 bytes are left out: the length is a multiple of 8.
abbrev pub memmove : ℕ → ℕ → ℕ → Buffer → Buffer
memmove dst src n b = copy_forward (n / 8) dst src 0 b

-- A row in one colour, `n` pairs of pixels from the `x`th on.
unfoldable pub clear_pairs : ℕ → ℕ → ℕ → ℕ → Buffer → Buffer
clear_pairs zero color base x b = b
clear_pairs (suc n) color base x b =
    clear_pairs n color base (x + 1) (store64 (base + x * 8) color color b)

unfoldable pub clear_rows : ℕ → ℕ → ℕ → ℕ → ℕ → Buffer → Buffer
clear_rows zero color pitch pairs y b = b
clear_rows (suc n) color pitch pairs y b =
    clear_rows n color pitch pairs (y + 1) (clear_pairs pairs color ((y * pitch) % 2 ^ 32) 0 b)

-- `console_scroll`.
unfoldable pub scroll : Console → Console
scroll k =
    let p = pitch k.fb in
    let moved =
      memmove 0 ((font_height * p) % 2 ^ 32) (((k.rows * font_height - font_height) * p) % 2 ^ 32)
        (target k.fb) in
    let cleared =
      clear_rows font_height k.bg_color p (k.fb.render_width / 2) ((k.rows - 1) * font_height)
        moved in
    record k { fb = drawn cleared k.fb }

-- To the start of the next line.
unfoldable pub new_line : Console → Console
new_line k =
    let k' = record k { cursor_x = 0; cursor_y = k.cursor_y + 1 } in
    if leb k.rows k'.cursor_y then record (scroll k') { cursor_y = k.rows - 1 } else k'

-- `console_putc`.
unfoldable pub putc : (ℕ → ℕ → ℕ) → ℕ → Console → Console
putc font c k =
    if c == 10
    then new_line k
    else if c == 13
    then record k { cursor_x = 0 }
    else if c == 9
    then (let k' = record k { cursor_x = (k.cursor_x + 4) / 4 * 4 } in
        if leb k.cols k'.cursor_x then new_line k' else k')
    else if c == 8
    then record k { cursor_x = k.cursor_x - 1 }
    else (let k' = draw_char font k.cursor_x k.cursor_y c k in
        let k'' = record k' { cursor_x = k.cursor_x + 1 } in
        if leb k.cols k''.cursor_x then new_line k'' else k'')

-- `fb_clear`, with the flag of src/framebuffer.c set.
unfoldable pub fb_clear : ℕ → Fb → Fb
fb_clear color fb =
    drawn (clear_rows fb.render_height color (pitch fb) (fb.render_width / 2) 0 (target fb)) fb

-- `console_init`, once there is a frame buffer.
unfoldable pub init : Fb → Console
init fb = record {
  cursor_x = 0;
  cursor_y = 0;
  cols = fb.render_width / font_width;
  rows = fb.render_height / font_height;
  fg_color = 0x00ff_ffff;
  bg_color = 0;
  fb = fb_clear 0 fb;
}

unfoldable pub put_text : (ℕ → ℕ → ℕ) → List ℕ → Console → Console
put_text font [] k = k
put_text font (c ∷ s) k = put_text font s (putc font c k)

-- A row of `fb_present`, `n` words of 64 bits from the `i`th on.
unfoldable pub present_words : ℕ → Buffer → ℕ → ℕ → ℕ → Buffer → Buffer
present_words zero src s d i dst = dst
present_words (suc n) src s d i dst =
    present_words n src s d (i + 1)
      (store64 (d + i * 8) (src (s + i * 8)) (src (s + i * 8 + 4)) dst)

unfoldable pub present_rows : ℕ → Buffer → ℕ → ℕ → ℕ → ℕ → Buffer → Buffer
present_rows zero src back_pitch hw_pitch words y dst = dst
present_rows (suc n) src back_pitch hw_pitch words y dst =
    present_rows n src back_pitch hw_pitch words (y + 1)
      (present_words words src ((y * back_pitch) % 2 ^ 32) ((y * hw_pitch) % 2 ^ 32) 0 dst)

-- `fb_present`.
unfoldable pub fb_present : Fb → Fb
fb_present fb = record fb {
  front =
      if fb.has_back
      then present_rows fb.render_height fb.back fb.back_pitch fb.hw_pitch
          ((fb.render_width * 4) % 2 ^ 32 / 8) 0 fb.front
      else fb.front;
}

-- `console_puts`.
unfoldable pub puts : (ℕ → ℕ → ℕ) → List ℕ → Console → Console
puts font s k = let k' = put_text font s k in record k' { fb = fb_present k'.fb }

-- `console_clear`.
unfoldable pub clear : Console → Console
clear k = record k { cursor_x = 0; cursor_y = 0; fb = fb_present (fb_clear k.bg_color k.fb) }

-- `console_erase_char`.
unfoldable pub erase_char : (ℕ → ℕ → ℕ) → Console → Console
erase_char font k =
    if ltb 0 k.cursor_x
    then (let k' =
          draw_char font (k.cursor_x - 1) k.cursor_y b' '
            (record k { cursor_x = k.cursor_x - 1 }) in
        record k' { fb = fb_present k'.fb })
    else k
