-- ===== src/Download/Worker/Refresh/Counting.antt =====
-- No byte is lost between the two counters of class Speed, whatever the interleaving of the threads.
use node_link.Base.{
  ℕ, ◌+◌, ◌^◌, ◌≤◌, ◌<◌, ◌≡◌, refl, sym, ap, subst, List, [], ◌∷◌, ◌++◌, All, All-mono, All-append,
  Option, none, some, arith,
}
use node_link.Download.Worker.Display.{Sample}
use node_link.Download.Worker.Refresh.{
  Stage, checking, measured, half_drawn, Display, new_display, Tick, starts, adds_downloaded,
  adds_session, exchanges, reads, draws, stops, leaves, Ticks, start_at, then_tick,
}

abbrev pub sum : List ℕ → ℕ
sum [] = 0
sum (n ∷ ns) = n + sum ns

-- The bytes since the last round, over all rounds that were printed.
abbrev pub printed_bytes : List Sample → ℕ
printed_bytes [] = 0
printed_bytes (s ∷ ss) = s.current + printed_bytes ss

-- What was taken from `session_bytes` and is not yet printed.
abbrev pub in_round : Stage → ℕ
in_round (measured current spin) = current
in_round (half_drawn current seen spin) = current
in_round _ = 0

abbrev pub not_yet : Option ℕ → ℕ
not_yet none = 0
not_yet (some b) = b

abbrev pub spin_of : Stage → ℕ
spin_of (checking spin) = spin
spin_of (measured current spin) = spin
spin_of (half_drawn current seen spin) = spin
spin_of _ = 0

-- What was read in this round for the bar.
abbrev pub seen_in : Stage → ℕ
seen_in (half_drawn current seen spin) = seen
seen_in _ = 0

-- The bytes that the display accounts for: printed, in the round, in the session's counter, or about to
-- be added to it.
abbrev pub accounted : Display → ℕ
accounted s = printed_bytes s.drawn + in_round s.stage + s.speed.session_bytes + not_yet s.adding

-- What is printed: the counter's two reads are in order and not above `counted`, and the spinner's index
-- is in its array.
abbrev pub IsSound : ℕ → Sample → Type 0
IsSound counted x = (x.seen ≤ x.seen_again) × (x.seen_again ≤ counted) × (x.spin_index < 4)

pub record IsCounted (counted : ℕ) (s : Display) : Type 0 where
  pub downloaded : s.speed.bytes_downloaded ≡ counted
  pub session : accounted s ≡ counted
  pub sound : All (IsSound counted) s.drawn
  pub seen : seen_in s.stage ≤ counted
  pub spin : spin_of s.stage < 4

sum-append : (xs ys : List ℕ) → sum (xs ++ ys) ≡ sum xs + sum ys
sum-append [] ys = omega arith
sum-append (x ∷ xs) ys = omega (arith, sum-append xs ys)

printed_bytes-append :
    (xs ys : List Sample) → printed_bytes (xs ++ ys) ≡ printed_bytes xs + printed_bytes ys
printed_bytes-append [] ys = omega arith
printed_bytes-append (x ∷ xs) ys = omega (arith, printed_bytes-append xs ys)

IsSound-mono : (n m : ℕ) (xs : List Sample) → n ≤ m → All (IsSound n) xs → All (IsSound m) xs
IsSound-mono n m xs h =
    All-mono (IsSound n) (IsSound m) xs λ x sound. (sound.0, omega (arith, sound.1), sound.2)

nothing_added : {s : Display} (n : ℕ) → IsCounted n s → IsCounted (n + 0) s
nothing_added {s} n h = let e : n ≡ n + 0 = omega arith in subst (λ k. IsCounted k s) e h

Tick-IsCounted :
    {s s' : Display} {bs : List ℕ} (n : ℕ)
    → IsCounted n s
    → Tick s bs s'
    → n + sum bs < 2 ^ 64
    → IsCounted (n + sum bs) s'
Tick-IsCounted n h (starts {s} e) small =
    let round : in_round s.stage ≡ 0 = ap in_round e in
    nothing_added n (record {
      downloaded = h.downloaded;
      session = omega (arith, h.session);
      sound = h.sound;
      seen = omega arith;
      spin = omega arith;
    })
Tick-IsCounted n h (adds_downloaded {s} b e) small =
    let waiting : not_yet s.adding ≡ 0 = ap not_yet e in
    record {
      downloaded = omega (arith, h.downloaded);
      session = omega (arith, h.session);
      sound = IsSound-mono n (n + (b + 0)) s.drawn (omega arith) h.sound;
      seen = omega (arith, h.seen);
      spin = h.spin;
    }
Tick-IsCounted n h (adds_session {s} b e) small =
    let waiting : not_yet s.adding ≡ b = ap not_yet e in
    nothing_added n (record {
      downloaded = h.downloaded;
      session = omega (arith, h.session);
      sound = h.sound;
      seen = h.seen;
      spin = h.spin;
    })
Tick-IsCounted n h (exchanges {s} spin e on) small =
    let round : in_round s.stage ≡ 0 = ap in_round e in
    let place : spin_of s.stage ≡ spin = ap spin_of e in
    nothing_added n (record {
      downloaded = h.downloaded;
      session = omega (arith, h.session);
      sound = h.sound;
      seen = omega arith;
      spin = omega (arith, h.spin);
    })
Tick-IsCounted n h (reads {s} current spin e) small =
    let round : in_round s.stage ≡ current = ap in_round e in
    let place : spin_of s.stage ≡ spin = ap spin_of e in
    nothing_added n (record {
      downloaded = h.downloaded;
      session = omega (arith, h.session);
      sound = h.sound;
      seen = omega (arith, h.downloaded);
      spin = omega (arith, h.spin);
    })
Tick-IsCounted n h (draws {s} current seen spin e) small =
    let round : in_round s.stage ≡ current = ap in_round e in
    let place : spin_of s.stage ≡ spin = ap spin_of e in
    let before : seen_in s.stage ≡ seen = ap seen_in e in
    let x : Sample = record {
      current = current;
      seen = seen;
      seen_again = s.speed.bytes_downloaded;
      spin_index = spin;
    } in
    nothing_added n (record {
      downloaded = h.downloaded;
      session = omega (arith, h.session, printed_bytes-append s.drawn (x ∷ []));
      sound = All-append (IsSound n) s.drawn (x ∷ []) h.sound (
        (omega (arith, h.seen, h.downloaded), omega (arith, h.downloaded), omega (arith, h.spin)),
        tt,
      );
      seen = omega arith;
      spin = omega arith;
    })
Tick-IsCounted n h (stops {s}) small = nothing_added n (record {
  downloaded = h.downloaded;
  session = h.session;
  sound = h.sound;
  seen = h.seen;
  spin = h.spin;
})
Tick-IsCounted n h (leaves {s} spin e off) small =
    let round : in_round s.stage ≡ 0 = ap in_round e in
    nothing_added n (record {
      downloaded = h.downloaded;
      session = omega (arith, h.session);
      sound = h.sound;
      seen = omega arith;
      spin = omega arith;
    })

-- Whatever the interleaving, if the display has not counted 2^64 bytes, its counter of all bytes holds
-- those that were counted, and each of them is either printed as part of a round, or in the round that
-- is going on, or waits for the next one, none lost and none shown twice. A printed round has read the
-- counter in order and never above the bytes counted, and its spinner index is below four.
pub Ticks-IsCounted :
    (total : ℕ) {s : Display} {bs : List ℕ}
    → Ticks (new_display total) bs s
    → sum bs < 2 ^ 64
    → IsCounted (sum bs) s
Ticks-IsCounted total start_at small = record {
  downloaded = refl;
  session = refl;
  sound = tt;
  seen = omega arith;
  spin = omega arith;
}
Ticks-IsCounted total {s} (then_tick {bs} {cs} r t) small =
    let e = sum-append bs cs in
    subst (λ n. IsCounted n s) (sym e)
      (Tick-IsCounted (sum bs) (Ticks-IsCounted total r (omega arith)) t (omega arith))
