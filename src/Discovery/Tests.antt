-- ===== src/Discovery/Tests.antt =====
-- The theorems on host discovery: a host that refuses one port and accepts another.
use rnmap.Base.{[], ◌∷◌, ◌≡◌}
use rnmap.Discovery.{tcp_ping}
use rnmap.Discovery.Tcp.{summary, first_accepting, any_resets, tcp_ping-summary}
use rnmap.Fixtures.{web_server}

tcp_ping-summary_example :
    tcp_ping (web_server 0 443) (λ port. 2) (22 ∷ 80 ∷ [])
    ≡ summary
        (web_server 0 443)
        (λ port. 2)
        (first_accepting (web_server 0 443) (22 ∷ 80 ∷ []))
        (any_resets (web_server 0 443) (22 ∷ 80 ∷ []))
tcp_ping-summary_example = tcp_ping-summary (web_server 0 443) (λ port. 2) (22 ∷ 80 ∷ [])
