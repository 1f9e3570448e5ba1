-- ===== src/Hos.antt =====
-- vrp/hos: the hours-of-service rules, the reading of a recorded day, and the scheduling of breaks.
pub mod Rules
pub mod Tachograph
pub mod Schedule
