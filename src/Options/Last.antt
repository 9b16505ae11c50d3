-- ===== src/Options/Last.antt =====
-- pkg/server_options.go: the value that a list of options leaves in a field.
use coinsurf_proxy.Base.{ℕ, ◌≡◌, refl, ap, ◌∙◌, Option, none, some, List, [], ◌∷◌, arith}
use coinsurf_proxy.Options.{
  Options, WithOption, with_timeout_tcp, with_timeout_udp, with_session_duration,
  with_session_duration_max, with_dial_timeout, with_proxy_port_http, with_proxy_port_socks5,
  with_buffer_size_tcp, with_buffer_size_udp, set_option, set_options,
}

-- The numbers among the fields.
pub data Number : Type 0 where
  buffer_tcp buffer_udp dial session session_max tcp udp port_http port_socks5 : Number

abbrev pub number : Number → Options → ℕ
number buffer_tcp o = o.buffer_size_tcp
number buffer_udp o = o.buffer_size_udp
number dial o = o.dial_timeout
number session o = o.session_duration
number session_max o = o.session_duration_max
number tcp o = o.timeout_tcp
number udp o = o.timeout_udp
number port_http o = o.proxy_port_http
number port_socks5 o = o.proxy_port_socks5

-- The value that an option asks for.
abbrev pub asked : Number → WithOption → Option ℕ
asked buffer_tcp (with_buffer_size_tcp n) = some n
asked buffer_udp (with_buffer_size_udp n) = some n
asked dial (with_dial_timeout n) = some n
asked session (with_session_duration n) = some n
asked session_max (with_session_duration_max n) = some n
asked tcp (with_timeout_tcp n) = some n
asked udp (with_timeout_udp n) = some n
asked port_http (with_proxy_port_http n) = some n
asked port_socks5 (with_proxy_port_socks5 n) = some n
asked _ _ = none

abbrev pub value_or : Option ℕ → ℕ → ℕ
value_or none old = old
value_or (some v) old = v

abbrev pub last : Number → List WithOption → ℕ → ℕ
last f [] old = old
last f (x ∷ options) old = last f options (value_or (asked f x) old)

set_option-number :
    (f : Number) (x : WithOption) (o : Options)
    → number f (set_option x o) ≡ value_or (asked f x) (number f o)
unfolding set_option
set_option-number f x o = ground arith

-- Each number is the one that the last option for it asks for, and stays as it was where no option
-- is for it: the options do not disturb each other.
pub set_options-number :
    (f : Number) (options : List WithOption) (o : Options)
    → number f (set_options options o) ≡ last f options (number f o)
unfolding set_options
set_options-number f [] o = refl
set_options-number f (x ∷ options) o =
    set_options-number f options (set_option x o) ∙ ap (last f options) (set_option-number f x o)
