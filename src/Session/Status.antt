-- ===== src/Session/Status.antt =====
-- src/common/common.h: the states of a session.
-- `indeterminate` stands for any other value that storage may hold before it is assigned.
pub data SessionStaus : Type 0 where
  none playing pause teardown indeterminate : SessionStaus
