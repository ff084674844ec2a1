-- ===== src/Api.antt =====
-- What the program sees of Kubernetes: `unstructured.Unstructured` objects by the fields that the
-- source reads or writes, their identities, and the controller-runtime client as an interface.
pub mod Object
pub mod Blueprint
pub mod Client
pub mod Clusters
