-- ===== src/Kubernetes/Pods/Mounts/Distinct.antt =====
-- Volumes are added by name and mounts by path, each once.
use kompose.Base.{
  ◌≡◌, ◌↔◌, ◌⊎◌, inl, inr, refl, sym, ◌∙◌, true, not, List, [], ◌∷◌, ◌++◌, map, map-append,
  append_assoc, append-nil, arith, Text, ==_iff, Bool-cases, All, In, AllDistinct,
}
use kompose.Base.Members.{All-In, In-append, In-filter, filter-AllDistinct, append-AllDistinct}
use kompose.Kubernetes.Ports.{has_key}
use kompose.Kubernetes.Pods.Mounts.{
  set_of, difference, first_named, append_named, set_volume_names, set_volume_mount_paths,
  set_volumes, mount_in, set_volume_mounts,
}
use kompose.Kubernetes.Types.{Volume, VolumeMount, Container, PodSpec}

-- A way to visit a set meets its elements, each once.
pub record IsVisit (order : List Text → List Text) : Type 0 where
  pub meets : (n : Text) (ns : List Text) → In n (order ns) ↔ In n ns
  pub once : (ns : List Text) → AllDistinct ns → AllDistinct (order ns)

pub has_key_iff : (n : Text) (ns : List Text) → (has_key n ns ≡ true) ↔ In n ns
unfolding has_key
has_key_iff n [] = (λ e. absurd (ground (arith, e)), λ e. absurd e)
has_key_iff n (m ∷ ns) = ground (arith, ==_iff m n, has_key_iff n ns)

In-set_of : (n : Text) (ns : List Text) → In n (set_of ns) ↔ In n ns
unfolding set_of
In-set_of n [] = ground arith
In-set_of n (m ∷ ns) = ground (arith, In-set_of n ns, has_key_iff m (set_of ns))

set_of-AllDistinct : (ns : List Text) → AllDistinct (set_of ns)
unfolding set_of
set_of-AllDistinct [] = tt
set_of-AllDistinct (n ∷ ns) =
    ground (arith, set_of-AllDistinct ns, has_key_iff n (set_of ns), All-In n (set_of ns))

-- What the sets differ in: the names of the one list that the other lacks.
In-difference :
    (n : Text) (ns ms : List Text)
    → In n (difference (set_of ns) (set_of ms)) ↔ (In n ns × (In n ms → ⊥))
unfolding difference
In-difference n ns ms = ground (
  arith,
  In-filter (λ n. not (has_key n (set_of ms))) n (set_of ns),
  In-set_of n ns,
  In-set_of n ms,
  has_key_iff n (set_of ms),
)

difference-AllDistinct : (ns ms : List Text) → AllDistinct (difference (set_of ns) ms)
unfolding difference
difference-AllDistinct ns ms =
    filter-AllDistinct (λ n. not (has_key n ms)) (set_of ns) (set_of-AllDistinct ns)

module _ {A : Type 0} (key : A → Text) where
  names : List A → List Text
  names = map key

  map-first_named :
      (n : Text) (xs : List A) → In n (map key xs) → map key (first_named key n xs) ≡ n ∷ []
  unfolding first_named
  map-first_named n [] i = absurd i
  map-first_named n (x ∷ xs) i = ground (arith, ==_iff (key x) n, map-first_named n xs)

  map-append_named :
      (ns : List Text) (xs present : List A)
      → All (λ n. In n (map key xs)) ns
      → map key (append_named key ns xs present) ≡ map key present ++ ns
  unfolding append_named
  map-append_named [] xs present h = sym (append-nil (map key present))
  map-append_named (n ∷ ns) xs present h =
      rw
        (
          map-append_named ns xs (present ++ first_named key n xs) h.1,
          map-append key present (first_named key n xs),
          map-first_named n xs h.0,
          append_assoc (map key present) (n ∷ []) ns,
        )
        refl

All-visit : (P : Text → Type 0) (ns : List Text) → ((n : Text) → In n ns → P n) → All P ns
All-visit P [] h = tt
All-visit P (n ∷ ns) h = (h n (inl refl), All-visit P ns (λ m i. h m (inr i)))

module _ {A : Type 0} (key : A → Text) (order : List Text → List Text) (v : IsVisit order) where
  -- The names that are visited.
  abbrev visited : List A → List A → List Text
  visited xs present = order (difference (set_of (map key xs)) (set_of (map key present)))

  In-visited :
      (n : Text) (xs present : List A)
      → In n (visited xs present) ↔ (In n (map key xs) × (In n (map key present) → ⊥))
  In-visited n xs present =
      let d = difference (set_of (map key xs)) (set_of (map key present)) in
      let outer = v.meets n d in
      let inner = In-difference n (map key xs) (map key present) in
      (λ i. inner.0 (outer.0 i), λ i. outer.1 (inner.1 i))

  -- The names afterwards: those of before, then those that were visited.
  visited-keys :
      (xs present : List A)
      → map key (append_named key (visited xs present) xs present)
        ≡ map key present ++ visited xs present
  visited-keys xs present = map-append_named key (visited xs present) xs present (
      All-visit (λ n. In n (map key xs)) (visited xs present)
        (λ n i. ((In-visited n xs present).0 i).0))

  pub visited-In :
      (n : Text) (xs present : List A)
      → In n (map key (append_named key (visited xs present) xs present))
        ↔ (In n (map key xs) ⊎ In n (map key present))
  visited-In n xs present = rw (visited-keys xs present) ground (
    arith,
    In-append n (map key present) (visited xs present),
    In-visited n xs present,
    has_key_iff n (map key present),
    Bool-cases (has_key n (map key present)),
  )

  pub visited-AllDistinct :
      (xs present : List A)
      → AllDistinct (map key present)
      → AllDistinct (map key (append_named key (visited xs present) xs present))
  visited-AllDistinct xs present h = rw (visited-keys xs present) (
      append-AllDistinct (map key present) (visited xs present) h
        (v.once _ (difference-AllDistinct (map key xs) (set_of (map key present))))
        (λ n i. ((In-visited n xs present).0 i).1))

append_named-append :
    {A : Type 0} (key : A → Text) (ns : List Text) (xs present : List A)
    → (new : List A) × (append_named key ns xs present ≡ present ++ new)
unfolding append_named
append_named-append key [] xs present = ([], sym (append-nil present))
append_named-append key (n ∷ ns) xs present =
    let (new, e) = append_named-append key ns xs (present ++ first_named key n xs) in
    (first_named key n xs ++ new, e ∙ append_assoc present (first_named key n xs) new)

-- If the names of the pod's own volumes are distinct, then, in whatever order a set is visited,
-- SetVolumes keeps these volumes in front, adds the names that are missing and no other, and all the
-- names are distinct again.
pub set_volumes-AllDistinct :
    (order : List Text → List Text) (volumes : List Volume) (pod : PodSpec)
    → IsVisit order
    → AllDistinct (map (λ v. v.name) pod.volumes)
    → let after = (set_volumes order volumes pod).volumes in
      ((new : List Volume) × (after ≡ pod.volumes ++ new))
      × ((n : Text)
          → In n (map (λ v. v.name) after)
            ↔ (In n (map (λ v. v.name) volumes) ⊎ In n (map (λ v. v.name) pod.volumes)))
      × AllDistinct (map (λ v. v.name) after)
unfolding set_volumes set_volume_names
set_volumes-AllDistinct order volumes pod v h = (
  append_named-append (λ v. v.name)
      (order (difference (set_volume_names volumes) (set_volume_names pod.volumes))) volumes
      pod.volumes,
  λ n. visited-In (λ v. v.name) order v n volumes pod.volumes,
  visited-AllDistinct (λ v. v.name) order v volumes pod.volumes h,
)

-- The paths at which a container mounts a volume.
abbrev pub paths : Container → List Text
paths c = map (λ m. m.mount_path) c.volume_mounts

mounted-All :
    (order : List Text → List Text) (mounts : List VolumeMount) (containers : List Container)
    → IsVisit order
    → All (λ c. AllDistinct (paths c)) containers
    → All
        (λ c.
          AllDistinct (paths c)
          × ((n : Text) → In n (map (λ m. m.mount_path) mounts) → In n (paths c)))
        (map (mount_in order mounts) containers)
unfolding mount_in set_volume_mount_paths
mounted-All order mounts [] v h = tt
mounted-All order mounts (c ∷ containers) v h = (
  (
    visited-AllDistinct (λ m. m.mount_path) order v mounts c.volume_mounts h.0,
    λ n i. (visited-In (λ m. m.mount_path) order v n mounts c.volume_mounts).1 (inl i),
  ),
  mounted-All order mounts containers v h.1,
)

-- In whatever order a set is visited, SetVolumeMounts leaves each container of the pod with every
-- path of the mounts, and no container mounts two volumes at one path if none did before.
pub set_volume_mounts-AllDistinct :
    (order : List Text → List Text) (mounts : List VolumeMount) (pod : PodSpec)
    → IsVisit order
    → All (λ c. AllDistinct (paths c)) pod.containers
    → All
        (λ c.
          AllDistinct (paths c)
          × ((n : Text) → In n (map (λ m. m.mount_path) mounts) → In n (paths c)))
        (set_volume_mounts order mounts pod).containers
unfolding set_volume_mounts
set_volume_mounts-AllDistinct order mounts pod v h = mounted-All order mounts pod.containers v h
