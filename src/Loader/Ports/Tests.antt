-- ===== src/Loader/Ports/Tests.antt =====
-- A service that publishes and exposes port 80.
use kompose.Base.{refl, some, [], ◌∷◌, arith, codes, false, All, Lacks}
use kompose.Base.Int.{pos}
use kompose.Loader.Labels.{Cast}
use kompose.Loader.Ports.{ServicePortConfig}
use kompose.Loader.Ports.Exposed.{IsLowerTcp}

-- A conversion that knows the text 80.
abbrev cast : Cast
cast = record {
  to_int32 = λ _. pos 80;
  to_int64 = λ _. pos 80;
  to_bool = λ _. false;
  to_int32_checked = λ _. some (pos 80);
  to_text = λ _. codes "80";
}

abbrev web_port : ServicePortConfig
web_port = record { published = codes "8080"; target = 80; host_ip = []; protocol = codes "tcp" }

lower_tcp : All IsLowerTcp (web_port ∷ [])
lower_tcp = (refl, tt)

no_slash : Lacks b'/' (codes "80")
no_slash = ground arith

tcp_no_slash : Lacks b'/' (codes "tcp")
tcp_no_slash = ground arith
