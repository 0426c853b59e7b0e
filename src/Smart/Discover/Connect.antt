-- ===== src/Smart/Discover/Connect.antt =====
-- smart.go: all that the connection to a coordinator changes of the state.
use hurricache_go_client.Prelude.{
  ◌≡◌, ap, false, none, List, String, Bool-cases, Option-cases, inl, inr,
}
use hurricache_go_client.Errors.{Except, ok, err}
use hurricache_go_client.Smart.State.{Connection, SmartBackend, put}
use hurricache_go_client.Smart.Discover.{find_connection, connect}

pub connect-connections :
    (dialed : Except Connection) (t : String) (b : SmartBackend)
    → (l : List (String × Connection)) × ((connect dialed t b).0
        ≡ record b { coordinator_connections = l })
unfolding connect
connect-connections dialed t b = elim (Option-cases (find_connection t b.coordinator_connections)) [
  | inr (c, e) ↦ (b.coordinator_connections, rw (e, connect))
  | inl e ↦ connect_new dialed e
]
  where
    connect_new :
        (dialed : Except Connection)
        → find_connection t b.coordinator_connections ≡ none
        → (l : List (String × Connection)) × ((connect dialed t b).0
            ≡ record b { coordinator_connections = l })
    connect_new (err r) e = (b.coordinator_connections, rw (e, connect))
    connect_new (ok c) e = elim (Option-cases c.conn) [
      | inl f ↦ (b.coordinator_connections, rw (e, f, connect))
      | inr (ch, f) ↦ elim (Bool-cases b.closed) [
        | inl y ↦ (b.coordinator_connections, rw (e, f, y, connect))
        | inr n ↦ (
          put t c b.coordinator_connections,
          rw (e, f, n, connect)
              (ap
                (λ o. record b {
                  coordinator_connections =
                      put t (record { conn = o; close = c.close }) b.coordinator_connections;
                  closed = false;
                })
                f),
        )
      ]
    ]
