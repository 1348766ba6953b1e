-- ===== src/Tracker/Transport/Tests.antt =====
-- Clients on kernels that serve or refuse them, and instances of the theorems about them.
use node_link.Base.{
  ◌≡◌, refl, Bool, true, false, List, [], ◌∷◌, ◌++◌, map, replicate, returns, none, some, ok, arith,
}
use node_link.Parsing.Buffer.{Buffer}
use node_link.Parsing.Text.{ascii}
use node_link.Tracker.Url.{http, default_port}
use node_link.Tracker.Compact.{peer_at}
use node_link.Tracker.Udp.{timed_out}
use node_link.Tracker.Http.{http_request, get_peers}
use node_link.Tracker.Transport.{
  stream, Call, Kernel, resolve, create_socket, connect_socket, destroy, new_client, tcp_client,
  udp_client,
}
use node_link.Tracker.Transport.Accounts.{closes}
use node_link.Tracker.Transport.Life.{calls_of_life, IsAccounted, client_life}
use node_link.Tracker.Transport.Exchange.{
  ask_over, exchange, exchange_calls, IsServing, get_peers-over_tcp,
}
use node_link.Tracker.Tests.{
  addresses, answer, answer_entries, answer_short, answer_splits, answer_peers, torrent,
}

-- It resolves names and gives the descriptor 5, and refuses or makes all connections.
abbrev kernel : Bool → Kernel
kernel connects = record {
  resolves = λ cs. true;
  socket_answer = λ cs. 5;
  connects = λ cs. connects;
  takes = λ cs. true;
  recv_answer = λ cs. some answer;
}

-- The close of the constructor, and that of the base class's destructor.
refused_tcp : closes (calls_of_life (tcp_client (kernel false) (ascii "peer") 6881 [])) ≡ 5 ∷ 5 ∷ []
unfolding new_client resolve create_socket connect_socket destroy
refused_tcp = refl

refused_udp : closes (calls_of_life (udp_client (kernel false) (ascii "peer") 6881 [])) ≡ 5 ∷ []
unfolding new_client resolve create_socket connect_socket destroy
refused_udp = refl

client_life_example :
    (own : List Call) × (calls_of_life (new_client (kernel false) stream (ascii "peer") 6881 [])
      ≡ [] ++ own)
    × IsAccounted stream (returns (new_client (kernel false) stream (ascii "peer") 6881 [])) own
client_life_example = client_life (kernel false) stream (ascii "peer") 6881 []

kernel-IsServing : IsServing (kernel true) 5 answer
kernel-IsServing = record {
  resolves = λ cs. refl;
  gives = λ cs. refl;
  valid = refl;
  connects = λ cs. refl;
  takes = λ cs. refl;
  delivers = λ cs. refl;
}

-- The request for http://host/.
abbrev asked : Buffer
asked =
    http_request (record { protocol = http; host = ascii "host"; port = 80; path = ascii "/" })
      torrent (replicate 20 1) 6881

get_peers-over_tcp_example :
    (get_peers
        (ask_over (kernel true) [])
        (λ u. false)
        (λ u b. timed_out)
        (λ u b. timed_out)
        9
        5
        torrent
        (replicate 20 1)
        6881
      ≡ ok (map peer_at addresses))
    × (exchange (kernel true) [] (ascii "host") 80 asked
        ≡ ok answer (record {
          client = record { sock = 5; host = ascii "host"; port = 80 };
          calls = [] ++ exchange_calls 5 (ascii "host") 80 asked;
        }))
unfolding default_port
get_peers-over_tcp_example =
    get_peers-over_tcp (kernel true) 5 [] (λ u. false) (λ u b. timed_out) (λ u b. timed_out) 9 5
      torrent (replicate 20 1) 6881 (ascii "host") none none answer (ascii "HTTP/1.1 200 OK")
      answer_entries addresses [] kernel-IsServing refl
      (omega arith, (omega arith, (omega arith, (omega arith, tt))))
      (omega arith, (omega arith, (omega arith, (omega arith, tt)))) tt answer_short answer_splits
      (omega arith, omega arith, tt, tt) answer_peers (omega arith) (omega arith, tt)
