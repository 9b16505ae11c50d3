-- ===== src/Server/Sessions.antt =====
-- pkg/server.go and pkg/username.go together: the lifetime of sessions on a new server.
use coinsurf_proxy.Base.{
  ℕ, ◌≡◌, refl, sym, ap, ◌∙◌, true, none, some, List, [], ◌∷◌, Bytes, All, slt64, sle64,
}
use coinsurf_proxy.Auth.{ok}
use coinsurf_proxy.Request.{Request}
use coinsurf_proxy.Username.{LocationLookup, UsernameParser, Parsing, parse}
use coinsurf_proxy.Username.Inversion.{parsed}
use coinsurf_proxy.Username.Session.{HasSession, parse-session_duration}
use coinsurf_proxy.Options.{no_options, WithOption, set_options}
use coinsurf_proxy.Options.Last.{session, session_max, asked, last, set_options-number}
use coinsurf_proxy.Server.{
  Packages, Server, server_of, new_server, positive_or, default_session_duration,
  default_session_duration_max,
}
use coinsurf_proxy.Server.Defaults.{new_server-IsBuilt}

-- `NewUsernameParser`, for the location lookup that the options give.
abbrev pub new_username_parser : Server → LocationLookup → UsernameParser
new_username_parser s location = record {
  session_duration = s.session_duration;
  session_duration_max = s.session_duration_max;
  location = location;
}

-- Neither session duration is asked for.
abbrev pub LeavesSessions : WithOption → Type 0
LeavesSessions x = (asked session x ≡ none) × (asked session_max x ≡ none)

last-session :
    (options : List WithOption)
    → All LeavesSessions options
    → (last session options 0 ≡ 0) × (last session_max options 0 ≡ 0)
last-session [] h = (refl, refl)
last-session (x ∷ options) h = rw (h.0.0, h.0.1) (last-session options h.1)

server_of-sessions :
    (p : Packages) (options : List WithOption) (host : ℕ)
    → All LeavesSessions options
    → ((server_of p (set_options options no_options) host).session_duration
        ≡ default_session_duration)
      × ((server_of p (set_options options no_options) host).session_duration_max
          ≡ default_session_duration_max)
unfolding server_of
server_of-sessions p options host h =
    let (duration, most) = last-session options h in
    (
      ap (λ d. positive_or d default_session_duration)
          (set_options-number session options no_options ∙ duration),
      ap (λ d. positive_or d default_session_duration_max)
          (set_options-number session_max options no_options ∙ most),
    )

-- On a new server whose options leave the session durations alone, every accepted user name with a
-- session gives it a positive lifetime of at most thirty minutes, whatever number of seconds the
-- client writes.
pub new_server-session_duration :
    (p : Packages) (options : List WithOption) (s : Server) (location : LocationLookup)
    (sum64 : Bytes → ℕ) (username : Bytes) (req r : Request) (st : Parsing)
    → new_server p options ≡ some s
    → All LeavesSessions options
    → parsed req username ≡ ok st
    → parse sum64 (new_username_parser s location) username req ≡ ok r
    → HasSession st.session_id
    → (slt64 0 r.session_duration ≡ true)
      × (sle64 r.session_duration default_session_duration_max ≡ true)
new_server-session_duration p options s location sum64 username req r st built leaves loop accepted
      given =
    let b = new_server-IsBuilt p options s built in
    let (duration, most) = server_of-sessions p options s.host leaves in
    let duration' : s.session_duration ≡ default_session_duration =
      ap (λ (x : Server). x.session_duration) (sym b.same) ∙ duration in
    let most' : s.session_duration_max ≡ default_session_duration_max =
      ap (λ (x : Server). x.session_duration_max) (sym b.same) ∙ most in
    let (positive, bounded) =
      parse-session_duration sum64 (new_username_parser s location) username req r st loop accepted
        given (ap (slt64 0) duration')
        (ap (λ d. sle64 d s.session_duration_max) duration'
          ∙ ap (sle64 default_session_duration) most') in
    (positive, sym (ap (sle64 r.session_duration) most') ∙ bounded)
