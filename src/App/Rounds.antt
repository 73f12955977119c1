-- ===== src/App/Rounds.antt =====
-- The list of peers that the hub answers with (pkg/hub/hub.go), and the punches that a round of
-- Node.Run asks for (app/node.go).
use ptun.Base.{◌≡◌, ap, ◌∙◌, Bool, false, not, ◌&&◌, arith, if◌then◌else◌}
use ptun.Base.Text.{is_some, has-keys, has, String, str_eq, lookup-insert, lookup-delete}
use ptun.Bridge.{Bridge, has_peer}
use ptun.Hub.Sessions.{
  Session, Hub, load_session, all_session_names, enter, leave, save_session, remove_session,
}
use ptun.App.{to_punch}
use ptun.App.Laws.{has-to_punch}

-- Whether a round asks for a punch to a peer, when the hub answers with the names of its sessions.
abbrev pub asks_for : String → String → Bridge → Hub → Bool
asks_for own p b h = has p (to_punch own b (all_session_names h))

asks_for-load_session :
    (own p : String) (b : Bridge) (h : Hub)
    → asks_for own p b h ≡ (is_some (load_session p h) && not (str_eq p own) && not (has_peer p b))
asks_for-load_session own p b h =
    has-to_punch own p b (all_session_names h)
    ∙ ap (λ x. x && not (str_eq p own) && not (has_peer p b)) (has-keys p h.sessions)

-- A round in which the bridge stays as it is asks for a punch to a peer just when the hub has a session under the name, the name is not
-- the node's own, and the bridge does not have the peer. Right after a session has come to the hub its
-- name is asked for, on the same two conditions; right after a handler has ended, no session of its name
-- is, not even one that has come in its place. Neither changes what is asked for other names.
pub asks_for-enter-leave :
    (own p : String) (b : Bridge) (s : Session) (h : Hub)
    → (asks_for own p b h
        ≡ (is_some (load_session p h) && not (str_eq p own) && not (has_peer p b)))
      × (asks_for own p b (enter s h) ≡ (
          if str_eq s.name p then not (str_eq p own) && not (has_peer p b) else asks_for own p b h))
      × (asks_for own p b (leave s h) ≡ (if str_eq s.name p then false else asks_for own p b h))
unfolding enter leave save_session remove_session
asks_for-enter-leave own p b s h = (
  asks_for-load_session own p b h,
  asks_for-load_session own p b (enter s h)
      ∙ ground (arith, lookup-insert s.name p s h.sessions, asks_for-load_session own p b h),
  asks_for-load_session own p b (leave s h)
      ∙ ground (arith, lookup-delete s.name p h.sessions, asks_for-load_session own p b h),
)
