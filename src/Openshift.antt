-- ===== src/Openshift.antt =====
-- pkg/transformer/openshift: from the kobject data to OpenShift objects.
pub mod Objects
pub mod Transform
