-- ===== src/Mapping.antt =====
-- message_mapping.h and message_mapping.cpp: the ROS messages mapped onto the driver's value types,
-- and the reasons for which a goal is refused before it is mapped.
pub mod Trajectory
pub mod Gains
pub mod Names
pub mod Limits
