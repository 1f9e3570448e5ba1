-- ===== src/Examples.antt =====
-- Concrete inputs: tests of the definitions, and an application of each theorem that has hypotheses.
mod Conflicts
mod Arcs
mod Charging
mod Hours
mod Town
mod Days
mod Plans
mod Values
mod Waves
mod Duty
