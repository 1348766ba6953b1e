-- ===== src/Download/Worker/Display.antt =====
-- The text of the progress display in source/download/Worker.cpp. A `double` is an argument, with the
-- operations that the code uses.
pub mod Shape
use node_link.Base.{
  ℕ, zero, suc, ◌+◌, ◌-◌, ◌%◌, Bool, if◌then◌else◌, ℤ, pos, ltb_ℤ, leb_ℤ, List, [], ◌∷◌, ◌++◌,
  length, replicate, get_elem?, Option, none, some, Outcome, ok, bind, in_range, ltb,
}
use node_link.Parsing.Buffer.{Buffer}
use node_link.Parsing.Text.{ascii, to_string_ℤ}

pub record Double {ℓ} (W : Type ℓ) : Type ℓ where
  -- conversion from an `int` or a `size_t`
  pub of_nat : ℕ → W
  pub mul : W → W → W
  pub div : W → W → W
  -- `>=`
  pub ge : W → W → Bool
  -- conversion to `int`, or `none` where it is undefined
  pub to_int : W → Option ℤ
  -- `fixed << setprecision(2)`
  pub print_fixed : W → Buffer

-- What one refresh works on: the bytes since the last one, the counter of all bytes as it is read for
-- the bar and again for the third line, and the place of the spinner.
pub record Sample : Type 0 where
  pub current : ℕ
  pub seen : ℕ
  pub seen_again : ℕ
  pub spin_index : ℕ

abbrev pub units : List Buffer
units = ascii "B" ∷ ascii "KB" ∷ ascii "MB" ∷ ascii "GB" ∷ []

abbrev pub spinner : List ℕ
spinner = b'|' ∷ b'/' ∷ b'-' ∷ 92 ∷ []

-- `if (i < pos) '#' else if (i == pos) '>' else '.'`
abbrev pub cell : ℕ → ℤ → ℕ
cell i p = if ltb_ℤ (pos i) p then b'#' else if leb_ℤ (pos i) p then b'>' else b'.'

-- `for (int i = 0; i < bar_width; ++i)`, from `i` on for the rounds that are left.
unfoldable pub bar_from : ℕ → ℕ → ℤ → Buffer
bar_from zero i p = []
bar_from (suc rounds) i p = cell i p ∷ bar_from rounds (i + 1) p

unfoldable pub bar : ℤ → Buffer
bar p = bar_from 50 0 p

-- `if (n > most) n = most;`
abbrev pub at_most : ℤ → ℤ → ℤ
at_most most n = if ltb_ℤ most n then most else n

-- `left << setw(width)`
abbrev pub pad_right : ℕ → Buffer → Buffer
pad_right width s = s ++ replicate (width - length s) b' '

-- The escape character, and a sequence that it starts.
abbrev pub escape : Buffer → Buffer
escape s = 27 ∷ s

abbrev pub line_end : Buffer
line_end = escape (ascii "[K") ++ 10 ∷ []

-- What the insertions into `cout` print, one behind the other.
abbrev pub printed : List Buffer → Buffer
printed [] = []
printed (s ∷ ss) = s ++ printed ss

-- LINE 2
unfoldable pub bar_line : ℤ → ℤ → ℕ → Buffer
bar_line percent p spin = printed (
    escape (ascii "[1;33m[")
    ∷ bar p
    ∷ ascii "]"
    ∷ escape (ascii "[0m ")
    ∷ escape (ascii "[1;37m")
    ∷ to_string_ℤ percent
    ∷ ascii "%"
    ∷ escape (ascii "[0m ")
    ∷ escape (ascii "[1;35m")
    ∷ (spin ∷ [])
    ∷ escape (ascii "[0m")
    ∷ line_end
    ∷ [])

-- LINE 3
unfoldable pub stats_line : Buffer → Buffer → Buffer → Buffer
stats_line speed downloaded total = printed (
    escape (ascii "[1;32mSpeed: ")
    ∷ escape (ascii "[0m")
    ∷ pad_right 12 (speed ++ ascii "/s")
    ∷ ascii " "
    ∷ escape (ascii "[1;34mDownloaded: ")
    ∷ escape (ascii "[0m")
    ∷ downloaded
    ∷ ascii " / "
    ∷ total
    ∷ line_end
    ∷ [])

module _ {ℓ} {W : Type ℓ} ⦃d : Double W⦄ where
  -- `while (bytes >= 1024 && i < 3)`, on the rounds up to `i` = 3.
  unfoldable pub scale : ℕ → W → ℕ → W × ℕ
  scale zero bytes i = (bytes, i)
  scale (suc rounds) bytes i =
      let rest = scale rounds (d.div bytes (d.of_nat 1024)) (i + 1) in
      if d.ge bytes (d.of_nat 1024) then rest else (bytes, i)

  -- `FormatBytes`
  unfoldable pub format_bytes : W → Outcome Buffer
  format_bytes bytes =
      let (scaled, i) = scale 3 bytes 0 in
      bind (in_range (get_elem? units i)) λ unit. ok (d.print_fixed scaled ++ (b' ' ∷ unit))

  unfoldable pub progress_of : ℕ → ℕ → W
  progress_of seen total =
      if ltb 0 total then d.div (d.of_nat seen) (d.of_nat total) else d.of_nat 0

  -- 1. Calculate Speed & Progress
  unfoldable pub percent_of : W → Outcome ℤ
  percent_of progress =
      bind (in_range (d.to_int (d.mul progress (d.of_nat 100)))) λ n. ok (at_most (pos 100) n)

  -- 2. Prepare Bar Dimensions
  unfoldable pub pos_of : W → Outcome ℤ
  pos_of progress =
      bind (in_range (d.to_int (d.mul (d.of_nat 50) progress))) λ n. ok (at_most (pos 50) n)

module _ {ℓ} (W : Type ℓ) ⦃d : Double W⦄ where
  -- What one round of the loop prints.
  unfoldable pub draw : Buffer → ℕ → Sample → Outcome Buffer
  draw filename total s =
      let progress : W = progress_of s.seen total in
      bind (percent_of progress) λ percent. bind (pos_of progress) λ p.
        bind (in_range (get_elem? spinner s.spin_index)) λ spin.
          bind (format_bytes (d.mul (d.of_nat s.current) (d.of_nat 5))) λ speed.
            bind (format_bytes (d.of_nat s.seen_again)) λ downloaded.
              bind (format_bytes (d.of_nat total)) λ whole. ok (
                printed (
                  escape (ascii "[H")
                  ∷ escape (ascii "[1;36m[ Downloading ]")
                  ∷ escape (ascii "[0m ")
                  ∷ filename
                  ∷ line_end
                  ∷ bar_line percent p spin
                  ∷ stats_line speed downloaded whole
                  ∷ []))
