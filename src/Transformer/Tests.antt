-- ===== src/Transformer/Tests.antt =====
-- The path of an ingress, and the labels of an object on a network.
use kompose.Base.{codes, Lacks, arith}

no_slash : Lacks b'/' (codes "a.org")
no_slash = ground arith
