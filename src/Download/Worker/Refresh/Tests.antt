-- ===== src/Download/Worker/Refresh/Tests.antt =====
-- The progress display on small inputs, and instances of its theorems.
use node_link.Base.{
  ℕ, ◌*◌, ◌/◌, ◌≡◌, refl, ◌++◌, [], ◌∷◌, false, pos, leb, some, none, ok, All, arith,
}
use node_link.Parsing.Text.{ascii, to_string, digits}
use node_link.Download.Worker.Display.{Double, scale, format_bytes, progress_of}
use node_link.Download.Worker.Refresh.{
  Display, new_display, checking, Ticks, starts, start_at, then_tick, adds_downloaded, adds_session,
  exchanges, reads, draws,
}
use node_link.Download.Worker.Refresh.Drawing.{IsDrawn, Ticks-draw}
use node_link.Download.Worker.Refresh.Counting.{IsCounted, Ticks-IsCounted}

-- Whole numbers in the place of `double`.
instance abbrev whole_double : Double ℕ
whole_double = record {
  of_nat = λ n. n;
  mul = λ x y. x * y;
  div = λ x y. x / y;
  ge = λ x y. leb y x;
  to_int = λ x. some (pos x);
  print_fixed = λ x. to_string x ++ ascii ".00";
}

abbrev size : ℕ
size = 5000

four_kilobytes : format_bytes size ≡ ok (ascii "4.00 KB")
unfolding format_bytes scale to_string digits
four_kilobytes = refl

-- The display measures between the two increments of an `add`, and draws behind them.
abbrev displayed : Display
displayed = record {
  speed = record { bytes_downloaded = 7; total_bytes = 9; session_bytes = 7 };
  adding = none;
  stage = checking 1;
  stop_flag = false;
  drawn = record { current = 0; seen = 7; seen_again = 7; spin_index = 0 } ∷ [];
}

displayed-Ticks : Ticks (new_display 9) (7 ∷ []) displayed
displayed-Ticks =
    then_tick
      (then_tick
        (then_tick
          (then_tick (then_tick (then_tick start_at (starts refl)) (adds_downloaded 7 refl))
            (exchanges 0 refl refl))
          (reads 0 0 refl))
        (adds_session 7 refl))
      (draws 0 7 0 refl)

Ticks-IsCounted_example : IsCounted 7 displayed
Ticks-IsCounted_example = Ticks-IsCounted 9 displayed-Ticks (omega arith)

Ticks-draw_example : All (IsDrawn ℕ (ascii "file") 9) displayed.drawn
unfolding progress_of
Ticks-draw_example =
    Ticks-draw ℕ (ascii "file") 9 displayed-Ticks (omega arith)
      λ seen h. ((pos _, refl), (pos _, refl))
