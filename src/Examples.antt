-- ===== src/Examples.antt =====
-- Runs of the model on concrete states, and the theorems applied to them.
mod Scene
mod Runs
mod Parts
mod Devices
mod Frames
mod Mouse
mod Apps
mod Composited
