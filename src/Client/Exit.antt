-- ===== src/Client/Exit.antt =====
-- When the program ends with success.
use node_link.Base.{
  ℕ, zero, suc, ◌^◌, leb, sym, ◌∙◌, ◌≡◌, refl, ◌⊎◌, inl, inr, Bool, true, false, pos, ◌<ℤ◌, ltb_ℤ,
  List, [], ◌∷◌, length, All, Outcome, Exception, Result, ok, throw, undefined, out_of_fuel, bind,
  Bool-cases, ltb→lt, get_elem?, some, arith,
}
use node_link.Parsing.Buffer.{Buffer}
use node_link.Parsing.TorrentFile.{TorrentFile, load}
use node_link.Tracker.Peer.{Peer}
use node_link.Download.Downloader.{new_downloader}
use node_link.Download.Farm.{Farm, run, start}
use node_link.Download.Farm.Starting.{start_download_lem, start_download_refused}
use node_link.Download.Farm.Endless.{IsUp, run_endless}
use node_link.Client.{
  World, Status, exited, my_id, ask_tracker, status_of, download, exit_on_error, client,
}

-- The torrent has no bytes to fetch, or no connection was opened.
abbrev pub HasNothingToDo : World → TorrentFile → List Peer → Type 0
HasNothingToDo w t peers =
    ¬ (pos 0 <ℤ t.length)
    ⊎ (length (start w.epfd w.opens (new_downloader t my_id peers)).connections ≡ 0)

status_of-exited :
    (r : Result Farm Bool)
    → exit_on_error (status_of r) ≡ ok (exited 0)
    → (f : Farm) × (r ≡ ok true f)
status_of-exited (ok true f) e = (f, refl)
status_of-exited (ok false f) e = absurd (ground arith)
status_of-exited (throw x f) e = absurd (ground arith)
status_of-exited undefined e = absurd (ground arith)
status_of-exited out_of_fuel e = absurd (ground arith)

not_thrown : (r : Result Farm Bool) (x : Exception) (f g : Farm) → r ≡ throw x f → ¬ (r ≡ ok true g)
not_thrown (ok left f') x f g e e' = absurd (ground arith)
not_thrown (throw y f') x f g e e' = absurd (ground arith)
not_thrown undefined x f g e e' = absurd (ground arith)
not_thrown out_of_fuel x f g e e' = absurd (ground arith)

download-exited :
    (w : World) (t : TorrentFile) (peers : List Peer)
    → All IsUp w.waits
    → exit_on_error (download w t peers) ≡ ok (exited 0)
    → HasNothingToDo w t peers
unfolding download
download-exited w t [] up e = absurd (ground arith)
download-exited w t (p ∷ peers) up e =
    let (f, ended) = status_of-exited _ e in
    elim (Bool-cases (leb (2 ^ 31) w.epfd)) [
      | inl negative ↦
          let refused =
            start_download_refused w.epfd w.accepts w.opens w.waits
              (new_downloader t my_id (p ∷ peers)) negative in
          absurd (not_thrown _ _ _ f refused ended)
      | inr valid ↦
          let looped =
            start_download_lem w.epfd w.accepts w.opens w.waits (new_downloader t my_id (p ∷ peers))
              valid in
          elim (Bool-cases (ltb_ℤ (pos 0) t.length)) [
            | inr empty ↦ inl (λ some_bytes. ground (arith, empty))
            | inl bytes ↦ inr (
                nothing_opened
                  (length (start w.epfd w.opens (new_downloader t my_id (p ∷ peers))).connections)
                  refl f (sym looped ∙ ended) bytes)
          ]
    ]
  where
    nothing_opened :
        (n : ℕ)
        → length (start w.epfd w.opens (new_downloader t my_id (p ∷ peers))).connections ≡ n
        → (f : Farm)
        → run w.accepts w.waits (start w.epfd w.opens (new_downloader t my_id (p ∷ peers)))
          ≡ ok true f
        → ltb_ℤ (pos 0) t.length ≡ true
        → n ≡ 0
    nothing_opened zero e f ended bytes = refl
    nothing_opened (suc n) e f ended bytes = absurd (
        run_endless w.epfd w.accepts w.opens t my_id (p ∷ peers) w.waits f (ltb→lt _ _ bytes)
          (omega (arith, e)) up ended)

bind-exited :
    {A : Type 0} (r : Outcome A) (f : A → Outcome Status)
    → exit_on_error (bind r f) ≡ ok (exited 0)
    → (a : A) × (r ≡ ok a) × (exit_on_error (f a) ≡ ok (exited 0))
bind-exited (ok a) f e = (a, refl, e)
bind-exited (throw x) f e = absurd (ground arith)
bind-exited undefined f e = absurd (ground arith)
bind-exited out_of_fuel f e = absurd (ground arith)

-- As long as `epoll_wait` does not fail, the program ends with the exit code 0 only for a torrent and peers
-- that it got, and then the torrent has no bytes to fetch or no peer could be connected to: a download
-- is never seen as complete.
pub client-exited :
    (w : World) (args : List Buffer)
    → All IsUp w.waits
    → client w args ≡ ok (exited 0)
    → (path : Buffer) × (t : TorrentFile) × (peers : List Peer) × (get_elem? args 1 ≡ some path)
      × (load w.sha1 (w.files path) ≡ ok t)
      × (ask_tracker w t ≡ ok peers)
      × HasNothingToDo w t peers
unfolding client
client-exited w [] up e = absurd (ground arith)
client-exited w (program ∷ []) up e = absurd (ground arith)
client-exited w (program ∷ path ∷ args) up e =
    let (t, loaded, e') =
      bind-exited (load w.sha1 (w.files path)) (λ t. bind (ask_tracker w t) (download w t)) e in
    let (peers, asked, e'') = bind-exited (ask_tracker w t) (download w t) e' in
    (path, t, peers, refl, loaded, asked, download-exited w t peers up e'')
