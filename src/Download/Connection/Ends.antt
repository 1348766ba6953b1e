-- ===== src/Download/Connection/Ends.antt =====
-- Connection.cpp: the loops end. The fuel of the model always suffices.
pub mod Rounds
use node_link.Base.{
  ℕ, zero, suc, ◌+◌, ◌-◌, ◌%◌, ◌^◌, ◌≤◌, ◌<◌, ◌≡◌, refl, sym, ap, ◌∙◌, Bool, true, false, ℤ, [],
  Option, none, some, M, Result, ok, throw, undefined, out_of_fuel, then_run, map_state,
  lift_outcome, pure, Outcome, Keeps, u64_of_int, minus_one, ℤ_of_int, rem_int64, mul_int64, ◌≢◌,
  Option-cases, get_elem?, bytes_eq, length, drop, ltb, ◌==◌, if◌then◌else◌, Bool-cases, ltb→le,
  inl, inr, arith,
}
use node_link.Parsing.Buffer.{Buffer, read_be32}
use node_link.Parsing.Sha1.{calculate}
use node_link.Parsing.TorrentFile.{TorrentFile}
use node_link.Download.Message
use node_link.Download.Message.{build_request, build_interested}
use node_link.Download.Downloader.{
  Downloader, get_next_piece_to_request, piece_len, assign_buffer, begin_piece, copy_block,
  update_speed, queue_piece, write_piece, verify_piece, check_integrity, on_block_received,
}
use node_link.Download.Connection.State.{
  State, connecting, handshaking, downloading, Env, Session, set_link, on_downloader, has_piece,
  send_on, send,
}
use node_link.Download.Connection.Requests.{
  pick_piece, block_length, advance, finish_piece, send_request, request_block, request_next_block,
}
use node_link.Download.Connection.Messages.{
  on_bitfield, set_choked, on_piece, dispatch, Frame, incomplete, overrun, keep_alive, message,
  next_frame, with_rest, go_on, greeted, handle_frame, handle_handshake, process_round,
  process_loop, process_buffer,
}

-- The run does not stop for want of fuel.
abbrev pub Ends : {S A : Type 0} → Result S A → Type 0
Ends out_of_fuel = ⊥
Ends _ = Unit {0}

pub Ends-then_run :
    {S A B : Type 0} (r : Result S A) (f : A → M S B)
    → Ends r
    → ((a : A) (s : S) → Ends (f a s))
    → Ends (then_run r f)
Ends-then_run (ok a s) f h k = k a s
Ends-then_run (throw x s) f h k = tt
Ends-then_run undefined f h k = tt
Ends-then_run out_of_fuel f h k = h

pub Ends-map_state :
    {S T A : Type 0} (put : S → T) (r : Result S A) → Ends r → Ends (map_state put r)
Ends-map_state put (ok a s) h = tt
Ends-map_state put (throw x s) h = tt
Ends-map_state put undefined h = tt
Ends-map_state put out_of_fuel h = h

pub send-Ends : (accepts : ℕ → Bool) (bytes : Buffer) (e : Env) → Ends (send accepts bytes e)
unfolding send send_on
send-Ends accepts bytes e = ground arith

next-Ends : (e : Env) → Ends (on_downloader get_next_piece_to_request e)
unfolding get_next_piece_to_request
next-Ends e = tt

abbrev pub piece_count : Env → ℕ
piece_count e = length e.downloader.torrent.piece_hashes

-- The bound on the attempts ends the loop.
pick_piece-Ends :
    (fuel attempts : ℕ) (e : Env)
    → piece_count e < 2 ^ 31 - 1
    → attempts ≤ piece_count e
    → piece_count e + 1 ≤ fuel + attempts
    → Ends (pick_piece fuel attempts e)
unfolding pick_piece get_next_piece_to_request
pick_piece-Ends zero attempts e bound few enough = absurd (omega arith)
pick_piece-Ends (suc fuel) attempts e bound few enough =
    let next : (attempts + 1) % 2 ^ 32 ≡ attempts + 1 = omega arith in
    let same : u64_of_int (attempts + 1) ≡ attempts + 1 = ground arith in
    elim (Bool-cases (ltb (piece_count e) (attempts + 1))) [
      | inl over ↦ rw (next, same, over) (ground arith)
      | inr more ↦
          let e' : Env = record e {
            downloader = record e.downloader {
              next_req_index = (e.downloader.next_req_index + 1) % 2 ^ 32;
            };
          } in
          let left : attempts + 1 ≤ piece_count e = ltb→le (piece_count e) (attempts + 1) more in
          let ih = pick_piece-Ends fuel (attempts + 1) e' bound left (omega arith) in
          rw (next, same, more) (ground (arith, ih))
    ]

module _ (accepts : ℕ → Bool) where
  send_request-Ends : (len : ℤ) (e : Env) → Ends (send_request accepts len e)
  unfolding send_request
  send_request-Ends len e =
      let packet =
        build_request e.link.current_piece e.link.block_offset
          (block_length len e.link.block_offset) in
      let sent : Ends (
          then_run (send accepts packet e)
            λ u e'. ok tt (advance (block_length len e.link.block_offset) e')) =
        Ends-then_run (send accepts packet e) _ (send-Ends accepts packet e) (λ u e'. tt) in
      ground (arith, sent)

  piece_len-Ends :
      (e : Env) → Ends (lift_outcome (piece_len e.downloader.torrent e.link.current_piece) e)
  unfolding piece_len rem_int64
  piece_len-Ends e = ground arith

  request_block-Ends : (e : Env) → Ends (request_block accepts e)
  unfolding request_block finish_piece
  request_block-Ends e =
      Ends-then_run (lift_outcome (piece_len e.downloader.torrent e.link.current_piece) e) _
        (piece_len-Ends e)
        (λ len e₁.
          Ends-then_run (send_request accepts len e₁) _ (send_request-Ends len e₁)
            (λ u e₂. ground arith))

  pub request_next_block-Ends :
      (e : Env) → piece_count e < 2 ^ 31 - 1 → Ends (request_next_block accepts e)
  unfolding request_next_block
  request_next_block-Ends e bound =
      let picked : Ends (
          then_run (pick_piece (piece_count e + 2) 0 e)
            λ found. if found then request_block accepts else pure tt) =
        Ends-then_run (pick_piece (piece_count e + 2) 0 e) _
          (pick_piece-Ends (piece_count e + 2) 0 e bound (omega arith) (omega arith))
          (λ found e'. let here = request_block-Ends e' in ground (arith, here)) in
      let here = request_block-Ends e in ground (arith, picked, here)

pub Ends-lift_outcome :
    {S A : Type 0} (r : Outcome A) (s : S) → r ≢ out_of_fuel → Ends (lift_outcome r s)
Ends-lift_outcome (ok a) s h = tt
Ends-lift_outcome (throw x) s h = tt
Ends-lift_outcome undefined s h = tt
Ends-lift_outcome out_of_fuel s h = absurd (h refl)

piece_len_ends : (t : TorrentFile) (i : ℕ) → piece_len t i ≢ out_of_fuel
unfolding piece_len rem_int64
piece_len_ends t i e = ground arith

mul_int64_ends : (a b : ℤ) → mul_int64 a b ≢ out_of_fuel
unfolding mul_int64
mul_int64_ends a b e = ground arith

pub read_be32_ends : (b : Buffer) (i : ℕ) → read_be32 b i ≢ out_of_fuel
unfolding read_be32
read_be32_ends b i e = ground arith

begin_piece-Ends : (i : ℕ) (d : Downloader) → Ends (begin_piece i d)
unfolding begin_piece assign_buffer
begin_piece-Ends i d = elim (Bool-cases (i == d.current_piece_index)) [
  | inl same ↦ rw same tt
  | inr new ↦ rw new (
      Ends-then_run _ _
        (Ends-lift_outcome (piece_len d.torrent i)
          (record d { current_piece_index = i; piece_bytes_received = 0 })
          (piece_len_ends d.torrent i))
        (λ len s. ground arith))
]

write_piece-Ends : (i : ℕ) (d : Downloader) → Ends (write_piece i d)
unfolding write_piece queue_piece
write_piece-Ends i d =
    Ends-then_run _ _
      (Ends-lift_outcome (mul_int64 (ℤ_of_int i) d.torrent.piece_length) d
        (mul_int64_ends (ℤ_of_int i) d.torrent.piece_length))
      (λ offset s. tt)

check_integrity-Ends : (i : ℕ) (d : Downloader) → Ends (check_integrity i d)
unfolding check_integrity verify_piece
check_integrity-Ends i d =
    let writes = write_piece-Ends i d in
    elim (Option-cases (get_elem? d.torrent.piece_hashes (u64_of_int i))) [
      | inl out ↦ ground (arith, out)
      | inr (hash, found) ↦ elim (Bool-cases (bytes_eq (calculate d.piece_buffer) hash)) [
        | inl eq ↦ ground (arith, found, eq, writes)
        | inr ne ↦ ground (arith, found, ne)
      ]
    ]

pub on_block_received-Ends :
    (i offset : ℕ) (b : Buffer) (d : Downloader) → Ends (on_block_received i offset b d)
unfolding on_block_received copy_block update_speed
on_block_received-Ends i offset b d =
    Ends-then_run (begin_piece i d) _ (begin_piece-Ends i d) (λ u s₁.
      Ends-then_run (copy_block offset b s₁) _ (ground arith) (λ u s₂. check_integrity-Ends i _))
