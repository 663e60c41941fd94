-- ===== src/Examples.antt =====
-- Tests of the models on concrete inputs, and the theorems applied to them.
mod Plans
mod WorkItems
mod Diffs
mod Repairs
mod Validations
mod Executions
mod Bodies
mod Workspaces
mod Dispatches
mod Ingestions
mod Publishings
mod Sandboxes
