-- ===== src/Console/Tests.antt =====
-- A screen of two lines of three characters for src/console.c.
use cool_os.Prelude.{ℕ, ◌≡◌, refl, true, some, List, [], ◌∷◌, arith}
use cool_os.Console.{Fb, init, fb_clear, puts}
use cool_os.Console.Paint.{IsLayout}
use cool_os.Console.Screen.{IsScreen, dimensions, OnScreen, puts-OnScreen}
use cool_os.Console.Shows.{Shows}
use cool_os.Console.Start.{blank_terminal, init-Shows}
use cool_os.Console.Terminal.{type_char, type_text}

abbrev screen : Fb
screen = record {
  front = λ q. 7;
  hw_pitch = 128;
  render_width = 24;
  render_height = 32;
  has_back = true;
  back = λ q. 9;
  back_pitch = 96;
}

-- The code of the character in each row.
abbrev font : ℕ → ℕ → ℕ
font c row = c

-- "A\nB\nC": the first line scrolls away.
abbrev text : List ℕ
text = b'A' ∷ 10 ∷ b'B' ∷ 10 ∷ b'C' ∷ []

scrolled :
    ((type_text 3 2 text blank_terminal).cells 0 0 ≡ some b'B')
    × ((type_text 3 2 text blank_terminal).cells 1 0 ≡ some b'C')
unfolding type_text type_char
scrolled = (refl, refl)

screen-IsLayout : IsLayout 3 2 96 24
screen-IsLayout = omega arith

init-dimensions :
    dimensions (init screen)
    ≡ record { cols = 3; rows = 2; width = 24; height = 32; hw_pitch = 128 }
unfolding init fb_clear
init-dimensions = refl

init-IsScreen : IsScreen (dimensions (init screen))
unfolding init fb_clear
init-IsScreen = omega arith

puts-OnScreen_example :
    Shows font
      (puts font text (init screen))
      (type_text (init screen).cols (init screen).rows text blank_terminal)
    × OnScreen font
        (puts font text (init screen))
        (type_text (init screen).cols (init screen).rows text blank_terminal).cells
puts-OnScreen_example =
    puts-OnScreen font text (init screen) blank_terminal (init-Shows font screen screen-IsLayout)
      init-IsScreen
