-- ===== src/Download/Worker/Refresh/Drawing.antt =====
-- The rounds of the progress display of source/download/Worker.cpp, and the texts that they print.
use node_link.Base.{
  ℕ, zero, suc, ◌≤◌, ◌<◌, ◌^◌, ◌≡◌, refl, ap, ◌∙◌, ℤ, pos, List, [], ◌∷◌, All, All-mono, some, ◌++◌,
  append_assoc, append-nil, sym, Outcome, ok, bind, in_range, get_elem?, arith,
}
use node_link.Parsing.Buffer.{Buffer}
use node_link.Parsing.Text.{ascii}
use node_link.Download.Worker.Display.{
  Double, Sample, spinner, at_most, progress_of, percent_of, pos_of, bar, bar_line, printed, escape,
  line_end, draw,
}
use node_link.Download.Worker.Display.Shape.{bar_at, bar_lem, format_bytes_lem}
use node_link.Download.Worker.Refresh.{Display, new_display, Ticks}
use node_link.Download.Worker.Refresh.Counting.{sum, IsSound, Ticks-IsCounted}

spinner_lem : (i : ℕ) → i < 4 → (c : ℕ) × (get_elem? spinner i ≡ some c)
spinner_lem zero h = (b'|', refl)
spinner_lem (suc zero) h = (b'/', refl)
spinner_lem (suc (suc zero)) h = (b'-', refl)
spinner_lem (suc (suc (suc zero))) h = (92, refl)
spinner_lem (suc (suc (suc (suc i)))) h = absurd (omega arith)

bind-ok {ℓ κ} :
    {A : Type ℓ} {B : Type κ} {r : Outcome A} {a : A} {b : B} (f : A → Outcome B)
    → r ≡ ok a
    → f a ≡ ok b
    → bind r f ≡ ok b
bind-ok f e run = ap (λ r. bind r f) e ∙ run

-- A piece of the text, with what is printed before it and behind it.
printed_piece :
    (xs : List Buffer) (front piece back last : Buffer)
    → printed (xs ++ (front ++ (piece ++ back)) ∷ last ∷ [])
      ≡ printed (xs ++ front ∷ []) ++ (piece ++ (back ++ last))
printed_piece [] front piece back last = simp (append_assoc, append-nil)
printed_piece (x ∷ xs) front piece back last =
    ap (λ s. x ++ s) (printed_piece xs front piece back last)
    ∙ sym (append_assoc x (printed (xs ++ front ∷ [])) (piece ++ (back ++ last)))

with_bar :
    {r : Outcome Buffer} (xs : List Buffer) (front : Buffer) (p : ℤ) (back last : Buffer)
    → r ≡ ok (printed (xs ++ (front ++ (bar p ++ back)) ∷ last ∷ []))
    → (before : Buffer) × (behind : Buffer) × (r ≡ ok (before ++ (bar_at p ++ behind)))
with_bar xs front p back last e = (
  printed (xs ++ front ∷ []),
  back ++ last,
  e
      ∙ ap ok (printed_piece xs front (bar p) back last)
      ∙ ap (λ b. ok (printed (xs ++ front ∷ []) ++ (b ++ (back ++ last)))) (bar_lem p),
)

module _ {ℓ} (W : Type ℓ) ⦃d : Double W⦄ where
  -- The two conversions of a progress to `int` are defined.
  abbrev pub IsConverted : W → Type 0
  IsConverted w =
      ((n : ℤ) × (d.to_int (d.mul w (d.of_nat 100)) ≡ some n))
      × ((p : ℤ) × (d.to_int (d.mul (d.of_nat 50) w) ≡ some p))

  -- The round has printed the bar of its progress, cut off at 50, between some texts.
  abbrev pub IsDrawn : Buffer → ℕ → Sample → Type 0
  IsDrawn filename total x =
      (p : ℤ) × (d.to_int (d.mul (d.of_nat 50) (progress_of x.seen total)) ≡ some p)
      × ((before : Buffer) × (behind : Buffer) × (draw W filename total x
            ≡ ok (before ++ (bar_at (at_most (pos 50) p) ++ behind))))

  draw_lem :
      (filename : Buffer) (total : ℕ) (x : Sample)
      → x.spin_index < 4
      → IsConverted (progress_of x.seen total)
      → IsDrawn filename total x
  unfolding draw percent_of pos_of bar_line
  draw_lem filename total x spin ((n, percent), (p, place)) =
      let (c, turn) = spinner_lem x.spin_index spin in
      let speed = format_bytes_lem (d.mul (d.of_nat x.current) (d.of_nat 5)) in
      let downloaded = format_bytes_lem (d.of_nat x.seen_again) in
      let whole = format_bytes_lem (d.of_nat total) in
      let lines_before : List Buffer =
        escape (ascii "[H")
        ∷ escape (ascii "[1;36m[ Downloading ]")
        ∷ escape (ascii "[0m ")
        ∷ filename
        ∷ line_end
        ∷ [] in
      (
        p,
        place,
        with_bar lines_before (escape (ascii "[1;33m[")) (at_most (pos 50) p) _ _ (
            bind-ok _ (ap (λ r. bind (in_range r) λ n. ok (at_most (pos 100) n)) percent) (
              bind-ok _ (ap (λ r. bind (in_range r) λ n. ok (at_most (pos 50) n)) place) (
                bind-ok _ (ap in_range turn)
                  (bind-ok _ speed.2 (bind-ok _ downloaded.2 (bind-ok _ whole.2 refl)))))),
      )

  -- In a run in which fewer than 2^64 bytes are counted, and in which the conversions to `int` of each
  -- progress up to these bytes are defined, every round that was made has printed its text, its
  -- accesses to the arrays of the spinner and of the units in range, with a bar of the shape that belongs
  -- to the progress of the bytes it read.
  pub Ticks-draw :
      (filename : Buffer) (total : ℕ) {s : Display} {bs : List ℕ}
      → Ticks (new_display total) bs s
      → sum bs < 2 ^ 64
      → ((seen : ℕ) → seen ≤ sum bs → IsConverted (progress_of seen total))
      → All (IsDrawn filename total) s.drawn
  Ticks-draw filename total {s} {bs} r small converts =
      All-mono (IsSound (sum bs)) (IsDrawn filename total) s.drawn
        (λ x sound.
          draw_lem filename total x sound.2 (converts x.seen (omega (arith, sound.0, sound.1))))
        (Ticks-IsCounted total r small).sound
