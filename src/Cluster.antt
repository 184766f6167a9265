-- ===== src/Cluster.antt =====
-- tftpos/cluster.py: clusters of hosts, their store, and the manager that provisions them.
-- The data and the grouping are in Cluster/Definition.antt, the JSON form in Cluster/Serial.antt, the
-- store in Cluster/Store.antt and the manager in Cluster/Manager.antt; the others prove.
pub mod Definition
pub mod Serial
pub mod Store
pub mod Manager
pub mod Groups
