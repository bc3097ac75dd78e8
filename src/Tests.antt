-- ===== src/Tests.antt =====
-- Runs on concrete inputs, and the theorems at inputs that meet their hypotheses.
mod Sorts
mod FooTables
mod HeapSorts
mod MaxSubarrays
mod SearchTrees
mod AvlTrees
mod LeftistHeaps
mod BinaryHeaps
mod DisjointSets
mod Buffers
mod HashTables
mod ProbedTables
mod LinkedLists
mod JobQueues
mod Databases
mod DatabaseInstances
