-- ===== src/Console/Start.antt =====
-- The console after `console_init` of src/console.c.
use cool_os.Prelude.{ℕ, ◌+◌, ◌*◌, ◌/◌, refl, sym, ap, subst, ◌∙◌, none, arith}
use cool_os.Console.{Fb, target, pitch, clear_rows, fb_clear, init}
use cool_os.Console.Paint.{IsLayout, Painted, row_base-small}
use cool_os.Console.Scroll.{clear_rows-at}
use cool_os.Console.Shows.{Shows, target-drawn}
use cool_os.Console.Terminal.{Terminal}

abbrev pub blank_terminal : Terminal
blank_terminal = record { cells = λ cy cx. none; x = 0; y = 0 }

-- A console that starts on a screen of at least one cell shows the blank terminal.
pub init-Shows :
    (font : ℕ → ℕ → ℕ) (fb : Fb)
    → IsLayout (fb.render_width / 8) (fb.render_height / 16) (pitch fb) fb.render_width
    → Shows font (init fb) blank_terminal
unfolding init fb_clear
init-Shows font fb l = record {
  paints = (
    l,
    subst
        (λ b.
          Painted font 0x00ff_ffff 0 (pitch fb) (fb.render_width / 8) (fb.render_height / 16) b
            (λ cy cx. none))
        (sym (target-drawn _ fb))
        (λ cy cx row col hy hx hr hc.
          ap
            (λ o.
              clear_rows fb.render_height 0 (pitch fb) (fb.render_width / 2) 0 (target fb)
                (o + (cx * 8 + col) * 4))
            (sym (row_base-small l (cy * 16 + row) (omega arith)))
          ∙ clear_rows-at 0 (pitch fb) (fb.render_width / 2) fb.render_height 0 (target fb)
              (cy * 16 + row) (cx * 8 + col) (omega arith) (omega arith) (omega (arith, l.wide))),
  );
  x = refl;
  y = refl;
  x_inside = l.some_cols;
  y_inside = l.some_rows;
}
