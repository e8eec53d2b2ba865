-- ===== src/Dag.antt =====
-- packages/without_dag/src/without_dag: graphs of steps
pub mod Graph
pub mod Sorter
pub mod Run
