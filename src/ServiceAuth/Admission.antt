-- ===== src/ServiceAuth/Admission.antt =====
-- pkg/service_auth.go, `OnConnect`: which nodes are added, and what becomes of the others.
use coinsurf_proxy.Base.{Bool, true, false, ◌||◌, List, [], ◌∷◌, Bytes, bytes_eq}
use coinsurf_proxy.Node.{Node}
use coinsurf_proxy.ServiceAuth.{
  Effect, disconnect, remove, new_stream, write_ok, write_failed, close_stream, add, register,
}

-- The peer is answered "1" or disconnected by one of the effects.
abbrev pub settles_by : Bytes → Effect → Bool
settles_by pid (disconnect id) = bytes_eq id pid
settles_by pid (remove id) = false
settles_by pid (new_stream id) = false
settles_by pid write_ok = true
settles_by pid write_failed = false
settles_by pid close_stream = false
settles_by pid (add node) = false
settles_by pid (register user ip node) = false

abbrev pub settles : Bytes → List Effect → Bool
settles pid [] = false
settles pid (x ∷ xs) = settles_by pid x || settles pid xs
