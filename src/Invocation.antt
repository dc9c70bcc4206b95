-- ===== src/Invocation.antt =====
-- source/invocation.c: the life of one invocation. Its parts are in the children: the line of the
-- trace that it comes from (Line), the slot of its thread (Tid), the choice of how it starts
-- (StartType).
pub mod Line
pub mod Tid
pub mod StartType
