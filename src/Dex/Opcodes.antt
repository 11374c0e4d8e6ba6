-- ===== src/Dex/Opcodes.antt =====
-- dexutil.py: the tables of the opcodes (84-209), with the opcodes in decimal.
use android_workbench.Prelude.{ℕ, Option, none, some, List, [], ◌∷◌, eqb, if◌then◌else◌}

-- `table.get(op)`
abbrev pub lookup : {A : Type 0} → List (ℕ × A) → ℕ → Option A
lookup [] op = none
lookup ((o, x) ∷ table) op = if eqb o op then some x else lookup table op

-- OP_UNITS
unfoldable pub op_units : List (ℕ × ℕ)
op_units =
    (0, 1)
    ∷ (1, 1)
    ∷ (2, 2)
    ∷ (3, 3)
    ∷ (4, 1)
    ∷ (5, 2)
    ∷ (6, 3)
    ∷ (7, 1)
    ∷ (8, 2)
    ∷ (9, 3)
    ∷ (10, 1)
    ∷ (11, 1)
    ∷ (12, 1)
    ∷ (13, 1)
    ∷ (14, 1)
    ∷ (15, 1)
    ∷ (16, 1)
    ∷ (17, 1)
    ∷ (18, 1)
    ∷ (19, 2)
    ∷ (20, 3)
    ∷ (21, 2)
    ∷ (22, 2)
    ∷ (23, 3)
    ∷ (24, 5)
    ∷ (25, 2)
    ∷ (26, 2)
    ∷ (27, 3)
    ∷ (28, 2)
    ∷ (29, 1)
    ∷ (30, 1)
    ∷ (31, 2)
    ∷ (32, 2)
    ∷ (33, 1)
    ∷ (34, 2)
    ∷ (35, 2)
    ∷ (36, 3)
    ∷ (37, 3)
    ∷ (38, 3)
    ∷ (39, 1)
    ∷ (40, 1)
    ∷ (41, 2)
    ∷ (42, 3)
    ∷ (43, 3)
    ∷ (44, 3)
    ∷ (45, 2)
    ∷ (46, 2)
    ∷ (47, 2)
    ∷ (48, 2)
    ∷ (49, 2)
    ∷ (50, 2)
    ∷ (51, 2)
    ∷ (52, 2)
    ∷ (53, 2)
    ∷ (54, 2)
    ∷ (55, 2)
    ∷ (56, 2)
    ∷ (57, 2)
    ∷ (58, 2)
    ∷ (59, 2)
    ∷ (60, 2)
    ∷ (61, 2)
    ∷ (68, 2)
    ∷ (69, 2)
    ∷ (70, 2)
    ∷ (71, 2)
    ∷ (72, 2)
    ∷ (73, 2)
    ∷ (74, 2)
    ∷ (75, 2)
    ∷ (76, 2)
    ∷ (77, 2)
    ∷ (78, 2)
    ∷ (79, 2)
    ∷ (80, 2)
    ∷ (81, 2)
    ∷ (82, 2)
    ∷ (83, 2)
    ∷ (84, 2)
    ∷ (85, 2)
    ∷ (86, 2)
    ∷ (87, 2)
    ∷ (88, 2)
    ∷ (89, 2)
    ∷ (90, 2)
    ∷ (91, 2)
    ∷ (92, 2)
    ∷ (93, 2)
    ∷ (94, 2)
    ∷ (95, 2)
    ∷ (96, 2)
    ∷ (97, 2)
    ∷ (98, 2)
    ∷ (99, 2)
    ∷ (100, 2)
    ∷ (101, 2)
    ∷ (102, 2)
    ∷ (103, 2)
    ∷ (104, 2)
    ∷ (105, 2)
    ∷ (106, 2)
    ∷ (107, 2)
    ∷ (108, 2)
    ∷ (109, 2)
    ∷ (110, 3)
    ∷ (111, 3)
    ∷ (112, 3)
    ∷ (113, 3)
    ∷ (114, 3)
    ∷ (116, 3)
    ∷ (117, 3)
    ∷ (118, 3)
    ∷ (119, 3)
    ∷ (120, 3)
    ∷ (123, 1)
    ∷ (124, 1)
    ∷ (125, 1)
    ∷ (126, 1)
    ∷ (127, 1)
    ∷ (128, 1)
    ∷ (129, 1)
    ∷ (130, 1)
    ∷ (131, 1)
    ∷ (132, 1)
    ∷ (133, 1)
    ∷ (134, 1)
    ∷ (135, 1)
    ∷ (136, 1)
    ∷ (137, 1)
    ∷ (138, 1)
    ∷ (139, 1)
    ∷ (140, 1)
    ∷ (141, 1)
    ∷ (142, 1)
    ∷ (143, 1)
    ∷ (144, 2)
    ∷ (145, 2)
    ∷ (146, 2)
    ∷ (147, 2)
    ∷ (148, 2)
    ∷ (149, 2)
    ∷ (150, 2)
    ∷ (151, 2)
    ∷ (152, 2)
    ∷ (153, 2)
    ∷ (154, 2)
    ∷ (155, 2)
    ∷ (156, 2)
    ∷ (157, 2)
    ∷ (158, 2)
    ∷ (159, 2)
    ∷ (160, 2)
    ∷ (161, 2)
    ∷ (162, 2)
    ∷ (163, 2)
    ∷ (164, 2)
    ∷ (165, 2)
    ∷ (166, 2)
    ∷ (167, 2)
    ∷ (168, 2)
    ∷ (169, 2)
    ∷ (170, 2)
    ∷ (171, 2)
    ∷ (172, 2)
    ∷ (173, 2)
    ∷ (174, 2)
    ∷ (175, 2)
    ∷ (176, 1)
    ∷ (177, 1)
    ∷ (178, 1)
    ∷ (179, 1)
    ∷ (180, 1)
    ∷ (181, 1)
    ∷ (182, 1)
    ∷ (183, 1)
    ∷ (184, 1)
    ∷ (185, 1)
    ∷ (186, 1)
    ∷ (187, 1)
    ∷ (188, 1)
    ∷ (189, 1)
    ∷ (190, 1)
    ∷ (191, 1)
    ∷ (192, 1)
    ∷ (193, 1)
    ∷ (194, 1)
    ∷ (195, 1)
    ∷ (196, 1)
    ∷ (197, 1)
    ∷ (198, 1)
    ∷ (199, 1)
    ∷ (200, 1)
    ∷ (201, 1)
    ∷ (202, 1)
    ∷ (203, 1)
    ∷ (204, 1)
    ∷ (205, 1)
    ∷ (206, 1)
    ∷ (207, 1)
    ∷ (208, 2)
    ∷ (209, 2)
    ∷ (210, 2)
    ∷ (211, 2)
    ∷ (212, 2)
    ∷ (213, 2)
    ∷ (214, 2)
    ∷ (215, 2)
    ∷ (216, 2)
    ∷ (217, 2)
    ∷ (218, 2)
    ∷ (219, 2)
    ∷ (220, 2)
    ∷ (221, 2)
    ∷ (222, 2)
    ∷ (223, 2)
    ∷ (224, 2)
    ∷ (225, 2)
    ∷ (226, 2)
    ∷ (250, 4)
    ∷ (251, 4)
    ∷ (252, 3)
    ∷ (253, 3)
    ∷ (254, 2)
    ∷ (255, 2)
    ∷ []
