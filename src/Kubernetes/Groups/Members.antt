-- ===== src/Kubernetes/Groups/Members.antt =====
-- Which services a group has.
use kompose.Base.{
  ◌≡◌, ◌≢◌, true, inl, inr, refl, sym, Option, none, some, List, [], ◌∷◌, ◌++◌, append_assoc,
  append-nil, Text, ◌==◌, ==_iff, Bool-cases, Option-cases, arith, if◌then◌else◌,
}
use kompose.Base.Dict.{Dict, lookup, insert, lookup-insert}
use kompose.Kobject.{ServiceConfig, ConvertOptions}
use kompose.Kubernetes.Groups.{
  get_service_group_id, get_group, in_group_as, sorted_keys, group_services,
  kompose_object_to_service_config_group_mapping,
}

-- A service joins a group if its id is the group's.
pub member : Text → Text → Text → Option ServiceConfig → List ServiceConfig
member mode id name none = []
member mode id name (some s) =
    if get_service_group_id s mode == id then record s { name = name; in_group = true } ∷ [] else []

-- The services of the names whose id is the group's, in the order of the names.
pub members : Text → Text → List Text → Dict ServiceConfig → List ServiceConfig
members mode id [] services = []
members mode id (name ∷ names) services =
    member mode id name (lookup name services) ++ members mode id names services

member-again :
    (mode id name other : Text) (s : ServiceConfig) (services : Dict ServiceConfig)
    → lookup name services ≡ some s
    → member mode id other (lookup other (insert name (in_group_as name s) services))
      ≡ member mode id other (lookup other services)
unfolding member get_service_group_id
member-again mode id name other s services e =
    rw (lookup-insert name other (in_group_as name s) services) (elim (Bool-cases (name == other)) [
      | inl i ↦ let j : name ≡ other = (==_iff name other).0 i in ground (arith, i, j, rw j at e)
      | inr i ↦ rw i refl
    ])

members-again :
    (mode id name : Text) (s : ServiceConfig) (names : List Text) (services : Dict ServiceConfig)
    → lookup name services ≡ some s
    → members mode id names (insert name (in_group_as name s) services)
      ≡ members mode id names services
unfolding members
members-again mode id name s [] services e = refl
members-again mode id name s (other ∷ names) services e =
    rw (member-again mode id name other s services e, members-again mode id name s names services e)
      refl

get-insert :
    (id other : Text) (g : List ServiceConfig) (groups : Dict (List ServiceConfig))
    → get_group other (insert id g groups) ≡ (if id == other then g else get_group other groups)
unfolding get_group
get-insert id other g groups = ground (arith, lookup-insert id other g groups)

loop-members :
    (mode id : Text) (names : List Text) (groups : Dict (List ServiceConfig))
    (services : Dict ServiceConfig)
    → id ≢ []
    → get_group id (group_services mode names groups services).0
      ≡ get_group id groups ++ members mode id names services
unfolding group_services members member
loop-members mode id [] groups services h = sym (append-nil (get_group id groups))
loop-members mode id (name ∷ names) groups services h = elim (Option-cases (lookup name services)) [
  | inl e ↦ ground (arith, e, loop-members mode id names groups services h)
  | inr (s, e) ↦
      let gid = get_service_group_id s mode in
      let g = get_group gid groups ++ in_group_as name s ∷ [] in
      let i = loop-members mode id names groups services h in
      let j =
        loop-members mode id names (insert gid g groups) (insert name (in_group_as name s) services)
          h in
      let k = members-again mode id name s names services e in
      let l = get-insert gid id g groups in
      ground (
        arith,
        e,
        i,
        j,
        k,
        l,
        ==_iff gid [],
        ==_iff gid id,
        append_assoc (get_group gid groups) (in_group_as name s ∷ [])
            (members mode id names services),
      )
]

-- The group of an id that is not empty has exactly the services with that id, in the order of their
-- sorted names, each marked with its name and as a part of a group.
pub group_mapping-members :
    (services : Dict ServiceConfig) (opt : ConvertOptions) (id : Text)
    → id ≢ []
    → get_group id (kompose_object_to_service_config_group_mapping services opt).0
      ≡ members opt.service_group_mode id (sorted_keys services) services
unfolding kompose_object_to_service_config_group_mapping get_group lookup
group_mapping-members services opt id h =
    loop-members opt.service_group_mode id (sorted_keys services) [] services h
