-- ===== src/Loader/Ports/Exposed.antt =====
-- When an exposed port is taken to be published already.
use kompose.Base.{
  ℕ, true, false, ◌≡◌, ◌≢◌, refl, List, [], ◌∷◌, ◌++◌, map, some, Option, sym, ◌∙◌, inl, inr, ap,
  append_assoc, append-nil, In, ==_refl, split-append, split-Lacks, contains-middle, arith, Text,
  codes, ==_iff, Lacks, Lacks-contains, get_last?, All,
}
use kompose.Loader.Labels.{Cast}
use kompose.Loader.Ports.{
  ServicePortConfig, is_among, parse_expose, load_expose_port, exist_key, load_exposed,
  load_published, exist_keys, load_ports,
}

ends_with : (s : Text) (c : ℕ) → get_last? (s ++ c ∷ []) ≡ some c
ends_with [] c = refl
ends_with (x ∷ []) c = refl
ends_with (x ∷ y ∷ s) c = ends_with (y ∷ s) c

-- Texts that end in the two spellings differ.
spellings_differ : (s t : Text) → s ++ codes "tcp" ≢ t ++ codes "TCP"
spellings_differ s t e =
    let p : s ++ codes "tcp" ≡ (s ++ b't' ∷ b'c' ∷ []) ++ b'p' ∷ [] =
      sym (append_assoc s (b't' ∷ b'c' ∷ []) (b'p' ∷ [])) in
    let q : t ++ codes "TCP" ≡ (t ++ b'T' ∷ b'C' ∷ []) ++ b'P' ∷ [] =
      sym (append_assoc t (b'T' ∷ b'C' ∷ []) (b'P' ∷ [])) in
    let last : ◌≡◌ {A = Option ℕ} (some b'p') (some b'P') =
      sym (ends_with (s ++ b't' ∷ b'c' ∷ []) b'p')
      ∙ ap get_last? (sym p ∙ e ∙ q)
      ∙ ends_with (t ++ b'T' ∷ b'C' ∷ []) b'P' in
    ground arith

abbrev pub IsLowerTcp : ServicePortConfig → Type 0
IsLowerTcp p = p.protocol ≡ codes "tcp"

not_among :
    (cast : Cast) (ports : List ServicePortConfig) (value : Text)
    → All IsLowerTcp ports
    → is_among (value ++ codes "TCP") (exist_keys cast ports) ≡ false
unfolding is_among exist_keys
not_among cast [] value h = refl
not_among cast (p ∷ ports) value (hp, h) = ground (
  arith,
  ==_iff (exist_key cast p) (value ++ codes "TCP"),
  key_spelling,
  not_among cast ports value h,
)
  where
    key_spelling : exist_key cast p ≢ value ++ codes "TCP"
    key_spelling e = spellings_differ (cast.to_text p.target) value (rw hp at e)

load_exposed-All :
    (cast : Cast) (ports : List ServicePortConfig) (expose : List Text)
    → All IsLowerTcp ports
    → All (Lacks b'/') expose
    → load_exposed cast (exist_keys cast ports) expose
      ≡ map (λ e. load_expose_port cast (e, codes "TCP")) expose
unfolding load_exposed parse_expose
load_exposed-All cast ports [] h _ = refl
load_exposed-All cast ports (e ∷ expose) h (he, hs) =
    rw (Lacks-contains b'/' e he, not_among cast ports e h)
      (ap (λ r. load_expose_port cast (e, codes "TCP") ∷ r)
        (load_exposed-All cast ports expose h hs))

-- Where the published ports are written with the protocol tcp, an exposed port without a protocol is
-- never taken to be published: each makes a TCP port of its own, also when its number is published.
pub load_ports-lower_tcp :
    (cast : Cast) (ports : List ServicePortConfig) (expose : List Text)
    → All IsLowerTcp ports
    → All (Lacks b'/') expose
    → load_ports cast ports expose
      ≡ load_published cast ports ++ map (λ e. load_expose_port cast (e, codes "TCP")) expose
unfolding load_ports
load_ports-lower_tcp cast ports expose h hs = rw (load_exposed-All cast ports expose h hs)

among_keys :
    (cast : Cast) (ports : List ServicePortConfig) (p : ServicePortConfig)
    → In p ports
    → is_among (cast.to_text p.target ++ p.protocol) (exist_keys cast ports) ≡ true
unfolding is_among exist_keys exist_key
among_keys cast [] p h = elim h [ ]
among_keys cast (q ∷ ports) p (inl e) = rw e (rw ==_refl)
among_keys cast (q ∷ ports) p (inr h) = ground (arith, among_keys cast ports p h)

parse-expose_text :
    (value protocol : Text)
    → Lacks b'/' value
    → Lacks b'/' protocol
    → parse_expose (value ++ b'/' ∷ protocol) ≡ (value, protocol)
unfolding parse_expose
parse-expose_text value protocol h k = rw (
  contains-middle b'/' value protocol,
  split-append value protocol b'/' h,
  split-Lacks protocol b'/' k,
)

-- An exposed port that names its protocol as a published port does adds nothing.
pub load_ports-published :
    (cast : Cast) (ports : List ServicePortConfig) (p : ServicePortConfig)
    → In p ports
    → Lacks b'/' (cast.to_text p.target)
    → Lacks b'/' p.protocol
    → load_ports cast ports ((cast.to_text p.target ++ b'/' ∷ p.protocol) ∷ [])
      ≡ load_published cast ports
unfolding load_ports load_exposed
load_ports-published cast ports p m h k =
    rw (parse-expose_text (cast.to_text p.target) p.protocol h k, among_keys cast ports p m)
      (append-nil _)
